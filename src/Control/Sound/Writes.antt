-- ===== src/Control/Sound/Writes.antt =====
-- Each write to the work table keeps the invariant.
use people_counter.Prelude.{
  ℕ, ◌+◌, ◌<◌, ◌≡◌, refl, Bool, true, none, List, [], ◌∷◌, ◌++◌, All, All-append, Returns,
  Returns-ok, Returns-require, Returns-bind,
}
use people_counter.Prelude.Rows.{update, All-update, find}
use people_counter.Prelude.Keys.{Distinct-update, Distinct-append, find-Fresh}
use people_counter.Control.Tables.{Work, ClaimedWork, Codec, Store}
use people_counter.Control.Sound.{IsSoundRow, IsSound}
use people_counter.Control.Sound.Rows.{
  new_work-IsSoundRow, leased_work-IsSoundRow, extended-IsSoundRow,
}
use people_counter.Control.Register.{Request, new_work, has_id}
use people_counter.Control.Lease.{Lease, leased_work, claims_row, lease_item, lease_items}
use people_counter.Control.Process.{owns, extended, extend_items}

-- An UPDATE that keeps the id of each row and, at the rows it selects, the invariant.
pub update-IsSound :
    (p : Work → Bool) (f : Work → Work) (s t : Store)
    → t.work ≡ update p f s.work
    → ((w : Work) → (f w).work_id ≡ w.work_id)
    → ((w : Work) → IsSoundRow w → p w ≡ true → IsSoundRow (f w))
    → IsSound s
    → IsSound t
update-IsSound p f s t e same keep h = record {
  rows = rw e (All-update IsSoundRow p f keep s.work h.rows);
  unique = rw e (Distinct-update (λ w. w.work_id) p f same s.work h.unique);
}

-- A write elsewhere.
pub same-IsSound : (s t : Store) → t.work ≡ s.work → IsSound s → IsSound t
same-IsSound s t e h = record { rows = rw e h.rows; unique = rw e h.unique }

pub insert-IsSound :
    (c : Codec) (now : ℕ) (r : Request) (s t : Store)
    → t.work ≡ s.work ++ new_work c now r ∷ []
    → 0 < r.max_attempts
    → find (has_id r.work_id) s.work ≡ none
    → IsSound s
    → IsSound t
unfolding new_work
insert-IsSound c now r s t e p q h = record {
  rows = rw e (All-append IsSoundRow s.work _ h.rows (new_work-IsSoundRow c now r p, tt));
  unique = rw e (
      Distinct-append (λ w. w.work_id) s.work _ (find-Fresh (λ w. w.work_id) r.work_id s.work q)
        h.unique);
}

lease_item-IsSound :
    (l : Lease) (n : ℕ) (item : ClaimedWork) (s : Store)
    → 0 < item.fence
    → IsSound s
    → Returns IsSound (lease_item l n item s)
unfolding lease_item leased_work
lease_item-IsSound l n item s p h = Returns-require _ _ _ λ _. Returns-bind _ _ λ attempts _.
    Returns-bind _ _ λ members _. Returns-ok _ (
      update-IsSound (claims_row item) (leased_work l item) s _ refl (λ w. refl)
        (λ w. leased_work-IsSoundRow l item w p) h)

pub lease_items-IsSound :
    (l : Lease) (n : ℕ) (items : List ClaimedWork) (s : Store)
    → All (λ i. 0 < i.fence) items
    → IsSound s
    → Returns IsSound (lease_items l n items s)
unfolding lease_items
lease_items-IsSound l n [] s p h = Returns-ok s h
lease_items-IsSound l n (i ∷ is) s p h =
    Returns-bind (lease_item l n i s) _
      λ s' e. lease_items-IsSound l (n + 1) is s' p.1 ((lease_item-IsSound l n i s p.0 h).at s' e)

pub extend_items-IsSound :
    (expires now : ℕ) (items : List ClaimedWork) (s : Store)
    → IsSound s
    → Returns IsSound (extend_items expires now items s)
unfolding extend_items extended
extend_items-IsSound expires now [] s h = Returns-ok s h
extend_items-IsSound expires now (i ∷ is) s h = Returns-require _ _ _ λ _.
    extend_items-IsSound expires now is _ (
      update-IsSound (owns i.work_id i.attempt_id i.fence) (extended expires now) s _ refl
        (λ w. refl) (λ w. extended-IsSoundRow expires now i.work_id i.attempt_id i.fence w) h)
