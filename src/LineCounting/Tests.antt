-- ===== src/LineCounting/Tests.antt =====
-- Two frames: a track is seen, and then coasts beside a new one. A box is its number doubled as float32.
use people_counter.Prelude.{ℕ, ◌*◌, arith, ◌≡◌, refl, none, some, List, [], ◌∷◌, Result, ok, ◌>>=◌}
use people_counter.LineCounting
use people_counter.LineCounting.{
  CoastingTrack, Detections, CoastingCache, coasting_track_detections,
}
use people_counter.LineCounting.Coasting.{IsCoasting, coasting_track_detections-IsCoasting}

abbrev cache : CoastingCache ℕ
cache =
    (7, record { bbox = 70; last_seen_frame = 3 })
    ∷ (8, record { bbox = 80; last_seen_frame = 1 })
    ∷ []

abbrev detected : Detections ℕ
detected = record { xyxy = 45 ∷ []; class_id = some (0 ∷ []); tracker_id = some (9 ∷ []) }

abbrev no_boxes : Detections ℕ
no_boxes = record { xyxy = []; class_id = some []; tracker_id = none }

abbrev float32 : ℕ → ℕ
float32 box = 2 * box

abbrev int32s : List ℕ → Result (List ℕ)
int32s ids = ok ids

run :
    (coasting_track_detections float32 int32s no_boxes detected cache 5 2).1
    ≡ ok (record {
      xyxy = 70 ∷ 90 ∷ [];
      class_id = some (0 ∷ 0 ∷ []);
      tracker_id = some (7 ∷ 9 ∷ []);
    })
unfolding coasting_track_detections LineCounting.remember LineCounting.store
    LineCounting.drop_expired LineCounting.detections_of ◌>>=◌
run = refl

coasting_track_detections-IsCoasting_example :
    IsCoasting float32 detected cache 5 2
      (coasting_track_detections float32 int32s no_boxes detected cache 5 2)
coasting_track_detections-IsCoasting_example =
    coasting_track_detections-IsCoasting float32 int32s no_boxes detected cache 5 2 (λ ids h. refl)
      refl (omega arith, tt) (omega arith, (omega arith, tt)) ((refl, tt), (tt, tt))
