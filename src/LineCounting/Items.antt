-- ===== src/LineCounting/Items.antt =====
-- The items of a track cache: what storing and dropping items does to the track of a number.
use people_counter.Prelude.{
  ℕ, ◌+◌, leb, ◌≡◌, refl, sym, ap, ◌∙◌, true, false, Option, none, some, List, [], ◌∷◌, arith,
  nat_eq, All, Bool-cases, inl, inr, if◌then◌else◌,
}
use people_counter.LineCounting.{
  CoastingTrack, Detections, CoastingCache, store, remember, is_expired, drop_expired,
}

module _ {A : Type 0} where
  abbrev pub track_of : ℕ → CoastingCache A → Option (CoastingTrack A)
  track_of i [] = none
  track_of i ((j, t) ∷ cache) = if nat_eq i j then some t else track_of i cache

  -- No item of the cache has the number.
  abbrev pub IsFree : ℕ → CoastingCache A → Type 0
  IsFree i cache = All (λ item. nat_eq i item.0 ≡ false) cache

  -- The numbers of the items differ, as in a dict.
  abbrev pub IsDict : CoastingCache A → Type 0
  IsDict [] = Unit {0}
  IsDict ((i, t) ∷ cache) = IsFree i cache × IsDict cache

  abbrev pub later : Option A → Option A → Option A
  later none o = o
  later (some b) o = some b

  -- The last box of the frame with the number.
  abbrev pub last_box : ℕ → List ℕ → List A → Option A
  last_box i [] boxes = none
  last_box i (j ∷ js) [] = none
  last_box i (j ∷ js) (b ∷ bs) = later (last_box i js bs) (if nat_eq i j then some b else none)

  abbrev pub box_in : ℕ → Detections A → Option A
  box_in i d = of d.tracker_id
    where
      of : Option (List ℕ) → Option A
      of none = none
      of (some ids) = last_box i ids d.xyxy

  -- The track, unless it has expired.
  abbrev pub unexpired : ℕ → ℕ → Option (CoastingTrack A) → Option (CoastingTrack A)
  unexpired frame max_coast none = none
  unexpired frame max_coast (some t) =
      if leb frame (t.last_seen_frame + max_coast) then some t else none

  track_of-store :
      (i j : ℕ) (t : CoastingTrack A) (cache : CoastingCache A)
      → track_of i (store j t cache) ≡ (if nat_eq i j then some t else track_of i cache)
  unfolding store
  track_of-store i j t [] = refl
  track_of-store i j t ((k, u) ∷ cache) = elim (Bool-cases (nat_eq j k)) [
    | inl q ↦ same q
    | inr q ↦ other q (track_of-store i j t cache)
  ]
    where
      same :
          nat_eq j k ≡ true
          → track_of i (store j t ((k, u) ∷ cache))
            ≡ (if nat_eq i j then some t else (if nat_eq i k then some u else track_of i cache))
      same q =
          let e : j ≡ k = ground arith in
          elim (Bool-cases (nat_eq i k)) [ inl r ↦ rw (q, e, r) refl | inr r ↦ rw (q, e, r) refl ]

      other :
          nat_eq j k ≡ false
          → track_of i (store j t cache) ≡ (if nat_eq i j then some t else track_of i cache)
          → track_of i (store j t ((k, u) ∷ cache))
            ≡ (if nat_eq i j then some t else (if nat_eq i k then some u else track_of i cache))
      other q rest = elim (Bool-cases (nat_eq i k)) [
        | inl r ↦ let s : nat_eq i j ≡ false = ground arith in rw (q, r, s) refl
        | inr r ↦ rw (q, r) rest
      ]

  IsFree-store :
      (i j : ℕ) (t : CoastingTrack A) (cache : CoastingCache A)
      → nat_eq i j ≡ false
      → IsFree i cache
      → IsFree i (store j t cache)
  unfolding store
  IsFree-store i j t [] q h = (q, tt)
  IsFree-store i j t ((k, u) ∷ cache) q (a, h) = elim (Bool-cases (nat_eq j k)) [
    | inl r ↦ rw r (a, h)
    | inr r ↦ rw r (a, IsFree-store i j t cache q h)
  ]

  IsDict-store :
      (j : ℕ) (t : CoastingTrack A) (cache : CoastingCache A)
      → IsDict cache
      → IsDict (store j t cache)
  unfolding store
  IsDict-store j t [] d = (tt, tt)
  IsDict-store j t ((k, u) ∷ cache) (free, d) = elim (Bool-cases (nat_eq j k)) [
    | inl r ↦ rw r (free, d)
    | inr r ↦
        let s : nat_eq k j ≡ false = ground arith in
        rw r (IsFree-store k j t cache s free, IsDict-store j t cache d)
  ]

  IsFree-drop_expired :
      (frame max_coast i : ℕ) (cache : CoastingCache A)
      → IsFree i cache
      → IsFree i (drop_expired frame max_coast cache)
  unfolding drop_expired
  IsFree-drop_expired frame max_coast i [] h = tt
  IsFree-drop_expired frame max_coast i ((k, u) ∷ cache) (a, h) =
      elim (Bool-cases (is_expired frame max_coast u)) [
        | inl r ↦ rw r (IsFree-drop_expired frame max_coast i cache h)
        | inr r ↦ rw r (a, IsFree-drop_expired frame max_coast i cache h)
      ]

  pub IsDict-drop_expired :
      (frame max_coast : ℕ) (cache : CoastingCache A)
      → IsDict cache
      → IsDict (drop_expired frame max_coast cache)
  unfolding drop_expired
  IsDict-drop_expired frame max_coast [] d = tt
  IsDict-drop_expired frame max_coast ((k, u) ∷ cache) (free, d) =
      elim (Bool-cases (is_expired frame max_coast u)) [
        | inl r ↦ rw r (IsDict-drop_expired frame max_coast cache d)
        | inr r ↦ rw r (
          IsFree-drop_expired frame max_coast k cache free,
          IsDict-drop_expired frame max_coast cache d,
        )
      ]

  pub IsFree-track_of : (i : ℕ) (cache : CoastingCache A) → IsFree i cache → track_of i cache ≡ none
  IsFree-track_of i [] h = refl
  IsFree-track_of i ((k, u) ∷ cache) (a, h) = rw a (IsFree-track_of i cache h)

  expires :
      (frame max_coast : ℕ) (u : CoastingTrack A)
      → is_expired frame max_coast u ≡ true
      → unexpired frame max_coast (some u) ≡ none
  expires frame max_coast u r =
      let late : leb frame (u.last_seen_frame + max_coast) ≡ false = ground arith in rw late refl

  stays :
      (frame max_coast : ℕ) (u : CoastingTrack A)
      → is_expired frame max_coast u ≡ false
      → unexpired frame max_coast (some u) ≡ some u
  stays frame max_coast u r =
      let soon : leb frame (u.last_seen_frame + max_coast) ≡ true = ground arith in rw soon refl

  pub track_of-drop_expired :
      (frame max_coast i : ℕ) (cache : CoastingCache A)
      → IsDict cache
      → track_of i (drop_expired frame max_coast cache)
        ≡ unexpired frame max_coast (track_of i cache)
  unfolding drop_expired
  track_of-drop_expired frame max_coast i [] d = refl
  track_of-drop_expired frame max_coast i ((k, u) ∷ cache) (free, d) =
      track_of-drop_item frame max_coast i k u cache free
        (track_of-drop_expired frame max_coast i cache d)
    where
      track_of-drop_item :
          (frame max_coast i k : ℕ) (u : CoastingTrack A) (cache : CoastingCache A)
          → IsFree k cache
          → track_of i (drop_expired frame max_coast cache)
            ≡ unexpired frame max_coast (track_of i cache)
          → track_of i (drop_expired frame max_coast ((k, u) ∷ cache))
            ≡ unexpired frame max_coast (track_of i ((k, u) ∷ cache))
      track_of-drop_item frame max_coast i k u cache free rest =
          elim (Bool-cases (is_expired frame max_coast u)) [
            | inl r ↦ elim (Bool-cases (nat_eq i k)) [
              | inl s ↦
                  let e : k ≡ i = ground arith in
                  let gone = IsFree-track_of i cache (rw e at free) in
                  rw (r, s)
                    (rest ∙ ap (unexpired frame max_coast) gone ∙ sym (expires frame max_coast u r))
              | inr s ↦ rw (r, s) rest
            ]
            | inr r ↦ elim (Bool-cases (nat_eq i k)) [
              | inl s ↦ rw (r, s) (sym (stays frame max_coast u r))
              | inr s ↦ rw (r, s) rest
            ]
          ]

  -- The numbers of the items have a property.
  abbrev pub Numbers : (ℕ → Type 0) → CoastingCache A → Type 0
  Numbers P cache = All (λ item. P item.0) cache

  Numbers-store :
      (P : ℕ → Type 0) (j : ℕ) (t : CoastingTrack A) (cache : CoastingCache A)
      → P j
      → Numbers P cache
      → Numbers P (store j t cache)
  unfolding store
  Numbers-store P j t [] p h = (p, tt)
  Numbers-store P j t ((k, u) ∷ cache) p (a, h) = elim (Bool-cases (nat_eq j k)) [
    | inl r ↦ rw r (a, h)
    | inr r ↦ rw r (a, Numbers-store P j t cache p h)
  ]

  pub Numbers-drop_expired :
      (P : ℕ → Type 0) (frame max_coast : ℕ) (cache : CoastingCache A)
      → Numbers P cache
      → Numbers P (drop_expired frame max_coast cache)
  unfolding drop_expired
  Numbers-drop_expired P frame max_coast [] h = tt
  Numbers-drop_expired P frame max_coast ((k, u) ∷ cache) (a, h) =
      elim (Bool-cases (is_expired frame max_coast u)) [
        | inl r ↦ rw r (Numbers-drop_expired P frame max_coast cache h)
        | inr r ↦ rw r (a, Numbers-drop_expired P frame max_coast cache h)
      ]

module _ {A B : Type 0} (float32 : A → B) where
  -- The track with a box of the frame, as float32, and else the one that was there.
  abbrev pub seen_or : ℕ → Option A → Option (CoastingTrack B) → Option (CoastingTrack B)
  seen_or frame none before = before
  seen_or frame (some b) before = some (record { bbox = float32 b; last_seen_frame = frame })

  seen_or-later :
      (frame i j : ℕ) (b : A) (o : Option A) (before : Option (CoastingTrack B))
      → seen_or frame o (
          if nat_eq i j
          then some (record { bbox = float32 b; last_seen_frame = frame })
          else before)
        ≡ seen_or frame (later o (if nat_eq i j then some b else none)) before
  seen_or-later frame i j b none before = elim (Bool-cases (nat_eq i j)) [
    | inl r ↦ rw r refl
    | inr r ↦ rw r refl
  ]
  seen_or-later frame i j b (some c) before = refl

  pub track_of-remember :
      (frame i : ℕ) (ids : List ℕ) (boxes : List A) (cache : CoastingCache B)
      → track_of i (remember float32 frame ids boxes cache)
        ≡ seen_or frame (last_box i ids boxes) (track_of i cache)
  unfolding remember
  track_of-remember frame i [] boxes cache = refl
  track_of-remember frame i (j ∷ js) [] cache = refl
  track_of-remember frame i (j ∷ js) (b ∷ bs) cache =
      let t : CoastingTrack B = record { bbox = float32 b; last_seen_frame = frame } in
      track_of-remember frame i js bs (store j t cache)
      ∙ (ap (seen_or frame (last_box i js bs)) (track_of-store i j t cache)
          ∙ seen_or-later frame i j b (last_box i js bs) (track_of i cache))

  pub IsDict-remember :
      (frame : ℕ) (ids : List ℕ) (boxes : List A) (cache : CoastingCache B)
      → IsDict cache
      → IsDict (remember float32 frame ids boxes cache)
  unfolding remember
  IsDict-remember frame [] boxes cache d = d
  IsDict-remember frame (j ∷ js) [] cache d = d
  IsDict-remember frame (j ∷ js) (b ∷ bs) cache d =
      IsDict-remember frame js bs _ (IsDict-store j _ cache d)

  pub Numbers-remember :
      (P : ℕ → Type 0) (frame : ℕ) (ids : List ℕ) (boxes : List A) (cache : CoastingCache B)
      → All P ids
      → Numbers P cache
      → Numbers P (remember float32 frame ids boxes cache)
  unfolding remember
  Numbers-remember P frame [] boxes cache a h = h
  Numbers-remember P frame (j ∷ js) [] cache a h = h
  Numbers-remember P frame (j ∷ js) (b ∷ bs) cache (p, a) h =
      Numbers-remember P frame js bs _ a (Numbers-store P j _ cache p h)
