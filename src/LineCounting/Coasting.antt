-- ===== src/LineCounting/Coasting.antt =====
-- Which tracks coast after a frame.
use people_counter.Prelude.{
  ℕ, length, replicate, ◌<◌, All, Result, ok, ◌>>=◌, ◌≡◌, refl, ap, arith, ◌∙◌, Option, none, some,
  List, [], ◌∷◌, map, nat_eq, Bool-cases, inl, inr,
}
use people_counter.LineCounting.{
  CoastingTrack, Detections, CoastingCache, update_cache, drop_expired, detections_of,
  coasting_track_detections,
}
use people_counter.LineCounting.Items.{
  Numbers, Numbers-remember, Numbers-drop_expired, track_of, IsFree-track_of, later, IsDict,
  last_box, box_in, seen_or, unexpired, track_of-remember, IsDict-remember, IsDict-drop_expired,
  track_of-drop_expired,
}

-- `np.iinfo(np.int32).max + 1`
abbrev pub int32_limit : ℕ
int32_limit = 2147483648

abbrev pub IsInt32 : ℕ → Type 0
IsInt32 i = i < int32_limit

-- The track numbers of a frame fit an int32.
abbrev pub IsNumbered : Option (List ℕ) → Type 0
IsNumbered none = Unit {0}
IsNumbered (some ids) = All IsInt32 ids

module _ {A : Type 0} where
  abbrev pub boxed : Option (CoastingTrack A) → Option A
  boxed none = none
  boxed (some t) = some t.bbox

  -- Of items with distinct numbers, the last one with a number is the only one.
  last_box-items :
      (i : ℕ) (cache : CoastingCache A)
      → IsDict cache
      → last_box i (map (λ t. t.0) cache) (map (λ t. t.1.bbox) cache) ≡ boxed (track_of i cache)
  last_box-items i [] d = refl
  last_box-items i ((k, u) ∷ cache) (free, d) =
      rw (last_box-items i cache d) (elim (Bool-cases (nat_eq i k)) [
        | inl s ↦
            let e : k ≡ i = ground arith in rw (s, IsFree-track_of i cache (rw e at free)) refl
        | inr s ↦ rw s (later_none (track_of i cache))
      ])
    where
      later_none : (o : Option (CoastingTrack A)) → later (boxed o) none ≡ boxed o
      later_none none = refl
      later_none (some t) = refl

  box_in-no_boxes : (i : ℕ) (empty : Detections A) → empty.xyxy ≡ [] → box_in i empty ≡ none
  box_in-no_boxes i empty q = no_box empty.tracker_id empty.class_id empty.xyxy q
    where
      no_box :
          (ids class_id : Option (List ℕ)) (boxes : List A)
          → boxes ≡ []
          → box_in i (record { xyxy = boxes; class_id = class_id; tracker_id = ids }) ≡ none
      no_box none c boxes q = refl
      no_box (some []) c boxes q = refl
      no_box (some (j ∷ js)) c [] q = refl
      no_box (some (j ∷ js)) c (b ∷ bs) q = cc

  Numbers-IsInt32 :
      (cache : CoastingCache A) → Numbers IsInt32 cache → All IsInt32 (map (λ t. t.0) cache)
  Numbers-IsInt32 [] h = tt
  Numbers-IsInt32 (t ∷ cache) (a, h) = (a, Numbers-IsInt32 cache h)

  detections_of-boxes :
      (int32s : List ℕ → Result (List ℕ)) (empty : Detections A) (cache : CoastingCache A)
      → ((ids : List ℕ) → All IsInt32 ids → int32s ids ≡ ok ids)
      → empty.xyxy ≡ []
      → IsDict cache
      → Numbers IsInt32 cache
      → (out : Detections A) × (detections_of int32s empty cache ≡ ok out)
        × ((i : ℕ) → box_in i out ≡ boxed (track_of i cache))
  unfolding detections_of ◌>>=◌
  detections_of-boxes int32s empty [] exact q d h = (empty, refl, λ i. box_in-no_boxes i empty q)
  detections_of-boxes int32s empty (t ∷ cache) exact q d h =
      let out : Detections A = record {
        xyxy = map (λ i. i.1.bbox) (t ∷ cache);
        class_id = some (replicate (length (t ∷ cache)) 0);
        tracker_id = some (map (λ i. i.0) (t ∷ cache));
      } in
      (
        out,
        rw (exact (map (λ i. i.0) (t ∷ cache)) (Numbers-IsInt32 (t ∷ cache) h)) refl,
        λ i. last_box-items i (t ∷ cache) d,
      )

module _ {A B : Type 0} (float32 : A → B) where
  -- What a frame leaves of the cache, and what it returns.
  pub record IsCoasting (d : Detections A) (cache : CoastingCache B) (frame max_coast : ℕ)
      (r : CoastingCache B × Result (Detections B)) : Type 0 where
    pub dict : IsDict r.0
    pub tracks :
        (i : ℕ)
        → track_of i r.0
          ≡ unexpired frame max_coast (seen_or float32 frame (box_in i d) (track_of i cache))
    pub out : Detections B
    pub returned : r.1 ≡ ok out
    pub boxes :
        (i : ℕ)
        → box_in i out
          ≡ boxed
              (unexpired frame max_coast (seen_or float32 frame (box_in i d) (track_of i cache)))

  IsDict-update_cache :
      (frame : ℕ) (ids : Option (List ℕ)) (boxes : List A) (cache : CoastingCache B)
      → IsDict cache
      → IsDict (update_cache float32 frame ids boxes cache)
  IsDict-update_cache frame none boxes cache d = d
  IsDict-update_cache frame (some ids) boxes cache d =
      IsDict-remember float32 frame ids boxes cache d

  Numbers-update_cache :
      (frame : ℕ) (ids : Option (List ℕ)) (boxes : List A) (cache : CoastingCache B)
      → IsNumbered ids
      → Numbers IsInt32 cache
      → Numbers IsInt32 (update_cache float32 frame ids boxes cache)
  Numbers-update_cache frame none boxes cache a h = h
  Numbers-update_cache frame (some ids) boxes cache a h =
      Numbers-remember float32 IsInt32 frame ids boxes cache a h

  track_of-update_cache :
      (frame i : ℕ) (ids : Option (List ℕ)) (class_id : Option (List ℕ)) (boxes : List A)
      (cache : CoastingCache B)
      → track_of i (update_cache float32 frame ids boxes cache)
        ≡ seen_or float32 frame
            (box_in i (record { xyxy = boxes; class_id = class_id; tracker_id = ids }))
            (track_of i cache)
  track_of-update_cache frame i none class_id boxes cache = refl
  track_of-update_cache frame i (some ids) class_id boxes cache =
      track_of-remember float32 frame i ids boxes cache

  -- Let `sv.Detections.empty()` have no boxes, let the conversion to int32 keep the numbers below
  -- 2 ** 31, and let the numbers of the cache and of the frame be such, the cache's distinct. Then
  -- after the call the cache's numbers are distinct, and the track of a number is the one with its last
  -- box in the frame, converted to float32, or else the one that was there, as long as the frame is at
  -- most the given number of frames after the one where it was last seen. The call returns, and the
  -- detections have under each number the box of that track and no other.
  pub coasting_track_detections-IsCoasting :
      (int32s : List ℕ → Result (List ℕ)) (empty : Detections B) (d : Detections A)
      (cache : CoastingCache B) (frame max_coast : ℕ)
      → ((ids : List ℕ) → All IsInt32 ids → int32s ids ≡ ok ids)
      → empty.xyxy ≡ []
      → IsNumbered d.tracker_id
      → Numbers IsInt32 cache
      → IsDict cache
      → IsCoasting d cache frame max_coast
          (coasting_track_detections float32 int32s empty d cache frame max_coast)
  unfolding coasting_track_detections
  coasting_track_detections-IsCoasting int32s empty d cache frame max_coast exact q a n h =
      let seen = update_cache float32 frame d.tracker_id d.xyxy cache in
      let distinct = IsDict-update_cache frame d.tracker_id d.xyxy cache h in
      let dropped = IsDict-drop_expired frame max_coast seen distinct in
      let small =
        Numbers-drop_expired IsInt32 frame max_coast seen
          (Numbers-update_cache frame d.tracker_id d.xyxy cache a n) in
      let track : (i : ℕ)
          → track_of i (drop_expired frame max_coast seen)
            ≡ unexpired frame max_coast (seen_or float32 frame (box_in i d) (track_of i cache)) =
        λ i.
          track_of-drop_expired frame max_coast i seen distinct
          ∙ ap (unexpired frame max_coast)
              (track_of-update_cache frame i d.tracker_id d.class_id d.xyxy cache) in
      let (out, returned, boxes) = detections_of-boxes int32s empty _ exact q dropped small in
      record {
        dict = dropped;
        tracks = track;
        out = out;
        returned = returned;
        boxes = λ i. boxes i ∙ ap boxed (track i);
      }
