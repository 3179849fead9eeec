-- ===== src/LineCounting.antt =====
-- The tracks that coast in src/people_counter/line_counting.py (`coasting_track_detections`). Boxes,
-- their conversion to float32, the conversion of track numbers to an int32 array, which may raise, and
-- `sv.Detections.empty()` are parameters. A track cache is the list of its items in the order of a
-- dict; numbers of tracks and of frames are not negative.
pub mod Items
pub mod Coasting
pub mod Tests
use people_counter.Prelude.{
  ℕ, ◌-◌, Bool, not, Option, none, some, List, [], ◌∷◌, map, replicate, length, ltb, nat_eq,
  if◌then◌else◌, Result, ok, ◌>>=◌,
}
use people_counter.Prelude.Rows.{select}

module _ (A : Type 0) where
  pub record CoastingTrack : Type 0 where
    pub bbox : A
    pub last_seen_frame : ℕ

  -- The fields of `sv.Detections` that are used.
  pub record Detections : Type 0 where
    pub xyxy : List A
    pub class_id : Option (List ℕ)
    pub tracker_id : Option (List ℕ)

  -- `BoTSORTCoastingCache`
  abbrev pub CoastingCache : Type 0
  CoastingCache = List (ℕ × CoastingTrack)

module _ {A : Type 0} where
  -- `track_cache[tracker_id] = track`
  unfoldable pub store : ℕ → CoastingTrack A → CoastingCache A → CoastingCache A
  store tracker_id track [] = (tracker_id, track) ∷ []
  store tracker_id track ((other_id, other) ∷ cache) =
      if nat_eq tracker_id other_id
      then (other_id, track) ∷ cache
      else (other_id, other) ∷ store tracker_id track cache

  abbrev pub is_expired : ℕ → ℕ → CoastingTrack A → Bool
  is_expired frame max_coast track = ltb max_coast (frame - track.last_seen_frame)

  -- The cache without its expired tracks.
  unfoldable pub drop_expired : ℕ → ℕ → CoastingCache A → CoastingCache A
  drop_expired frame max_coast [] = []
  drop_expired frame max_coast ((i, track) ∷ cache) =
      let rest = drop_expired frame max_coast cache in
      if is_expired frame max_coast track then rest else (i, track) ∷ rest

module _ {A B : Type 0} (float32 : A → B) where
  -- The loop over `zip(detections.tracker_id, detections.xyxy)`.
  unfoldable pub remember : ℕ → List ℕ → List A → CoastingCache B → CoastingCache B
  unfolding store
  remember frame [] boxes cache = cache
  remember frame (i ∷ is) [] cache = cache
  remember frame (i ∷ is) (box ∷ boxes) cache =
      remember frame is boxes
        (store i (record { bbox = float32 box; last_seen_frame = frame }) cache)

  -- `if detections.tracker_id is not None`
  abbrev pub update_cache : ℕ → Option (List ℕ) → List A → CoastingCache B → CoastingCache B
  update_cache frame none boxes cache = cache
  update_cache frame (some ids) boxes cache = remember frame ids boxes cache

module _ {A : Type 0} (int32s : List ℕ → Result (List ℕ)) (empty : Detections A) where
  -- The returned detections, where `int32s` is `np.asarray` of the track numbers as int32.
  unfoldable pub detections_of : CoastingCache A → Result (Detections A)
  detections_of [] = ok empty
  detections_of (item ∷ items) = do
    ids ← int32s (map (λ i. i.0) (item ∷ items))
    ok (record {
      xyxy = map (λ i. i.1.bbox) (item ∷ items);
      class_id = some (replicate (length (item ∷ items)) 0);
      tracker_id = some ids;
    })

-- The cache after the call, and what it returns or raises.
unfoldable pub coasting_track_detections :
    {A B : Type 0} (float32 : A → B) (int32s : List ℕ → Result (List ℕ)) (empty : Detections B)
    → Detections A
    → CoastingCache B
    → ℕ
    → ℕ
    → CoastingCache B × Result (Detections B)
unfolding remember drop_expired detections_of
coasting_track_detections float32 int32s empty detections track_cache frame max_coast =
    let seen = update_cache float32 frame detections.tracker_id detections.xyxy track_cache in
    let kept = drop_expired frame max_coast seen in (kept, detections_of int32s empty kept)
