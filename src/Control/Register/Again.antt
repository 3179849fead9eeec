-- ===== src/Control/Register/Again.antt =====
-- A registration that is repeated, and read back.
use people_counter.Prelude.{
  ℕ, ◌≡◌, refl, sym, ◌∙◌, ap, true, Option, none, some, [], ◌∷◌, ◌++◌, arith, eq_iff, ok, err,
  Error, ◌>>=◌, bind-ok, bind_returned, ok_inj, Bool-cases, inl, inr,
}
use people_counter.Prelude.Rows.{find}
use people_counter.Prelude.Lookup.{find-append_last}
use people_counter.Control.Tables.{Work, Codec, Store, RegisteredWork}
use people_counter.Control.Texts.{required_text}
use people_counter.Control.Register.{
  Request, has_id, new_work, registered, check_request, same_content, register_row, register,
  get_work,
}

-- The registered row is in the store, has the request's content, and is what the caller is told.
record IsRegistered (c : Codec) (r : Request) (t : Store) (a : RegisteredWork) : Type 0 where
  row : Work
  found : find (has_id r.work_id) t.work ≡ some row
  content : same_content c r row ≡ true
  told : a ≡ registered row

same_content-new_work :
    (c : Codec) (now : ℕ) (r : Request) → same_content c r (new_work c now r) ≡ true
unfolding same_content new_work
same_content-new_work c now r = grind (
  arith,
  eq_iff (c.sha256 r.payload_json) (c.sha256 r.payload_json),
  eq_iff r.runtime_key r.runtime_key,
  eq_iff r.config_sha256 r.config_sha256,
  eq_iff r.release_digest r.release_digest,
)

register_row-IsRegistered :
    (c : Codec) (now : ℕ) (r : Request) (s t : Store) (a : RegisteredWork) (o : Option Work)
    → find (has_id r.work_id) s.work ≡ o
    → register_row c now r o s ≡ ok (t, a)
    → IsRegistered c r t a
unfolding register_row
register_row-IsRegistered c now r s t a none e h =
    let q : (record s { work = s.work ++ new_work c now r ∷ [] }, registered (new_work c now r))
        ≡ (t, a) =
      ok_inj h in
    record {
      row = new_work c now r;
      found = rw (← ap (λ (p : Store × RegisteredWork). p.0) q) (
          find-append_last (has_id r.work_id) (new_work c now r) s.work e
            (unfold new_work in (eq_iff r.work_id r.work_id).1 refl));
      content = same_content-new_work c now r;
      told = sym (ap (λ (p : Store × RegisteredWork). p.1) q);
    }
register_row-IsRegistered c now r s t a (some w) e h = elim (Bool-cases (same_content c r w)) [
  | inl k ↦
      let q : (s, registered w) ≡ (t, a) = ok_inj (rw k at h) in
      record {
        row = w;
        found = rw (← ap (λ (p : Store × RegisteredWork). p.0) q) e;
        content = k;
        told = sym (ap (λ (p : Store × RegisteredWork). p.1) q);
      }
  | inr k ↦ absurd (err_ok (rw k at h))
]
  where
    err_ok : {e : Error} {p : Store × RegisteredWork} → err e ≡ ok p → ⊥
    err_ok q = cc

check_request-text :
    (r : Request) → check_request r ≡ ok tt → required_text r.work_id ≡ ok r.work_id
unfolding check_request required_text ◌>>=◌
check_request-text r h = ground arith

-- If `register` returns a store and a value, then the same request, whenever it is made on that store,
-- returns the same store and the same value, and `get_work` of its work id returns that value.
pub register-register :
    (c : Codec) (now later : ℕ) (r : Request) (s t : Store) (a : RegisteredWork)
    → register c now r s ≡ ok (t, a)
    → (register c later r t ≡ ok (t, a)) × (get_work r.work_id t ≡ ok a)
unfolding register get_work register_row
register-register c now later r s t a h =
    let (_, checked, h') = bind_returned (check_request r) _ h in
    let i = register_row-IsRegistered c now r s t a _ refl h' in
    (
      bind-ok _ checked ∙ rw (i.found, i.content, i.told) refl,
      bind-ok _ (check_request-text r checked) ∙ rw (i.found, i.told) refl,
    )
