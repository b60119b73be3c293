-- ===== src/Jobs/Rows.antt =====
-- The jobs as a table with a primary key.
use soulmate.Prelude.{
  String, ◌≡◌, refl, sym, ap, ◌∙◌, Bool, true, false, [], ◌∷◌, ◌==◌, eq_iff, eq_refl, any, map, All,
  Member, at_head, in_tail, update_where, set_where, arith, inl, inr, Bool-cases, false≢true,
}
use soulmate.Jobs.Store.{Job, Store, has_id}

-- The primary key: no two rows have the same id.
abbrev pub Distinct : Store → Type 0
Distinct [] = Unit
Distinct (j ∷ jobs) = (any (has_id j.id) jobs ≡ false) × Distinct jobs

pub any-update :
    (id : String) (p : Job → Bool) (f : Job → Job)
    → ((j : Job) → (f j).id ≡ j.id)
    → (jobs : Store) → any (has_id id) (update_where p f jobs) ≡ any (has_id id) jobs
unfolding update_where
any-update id p f same [] = refl
any-update id p f same (j ∷ jobs) = elim (Bool-cases (p j)) [
  | inl on ↦ rw (on, any-update id p f same jobs, same j) refl
  | inr off ↦ rw (off, any-update id p f same jobs) refl
]

set_where_id :
    (p : Job → Bool) (f : Job → Job)
    → ((j : Job) → (f j).id ≡ j.id)
    → (j : Job) → (set_where p f j).id ≡ j.id
set_where_id p f same j = elim (Bool-cases (p j)) [
  | inl on ↦ rw on (same j)
  | inr off ↦ rw off refl
]

pub update-Distinct :
    (p : Job → Bool) (f : Job → Job)
    → ((j : Job) → (f j).id ≡ j.id)
    → (jobs : Store) → Distinct jobs
    → Distinct (update_where p f jobs)
unfolding update_where
update-Distinct p f same [] d = tt
update-Distinct p f same (j ∷ jobs) d = (
  ap (λ id. any (has_id id) (map (set_where p f) jobs)) (set_where_id p f same j)
      ∙ any-update j.id p f same jobs
      ∙ d.0,
  update-Distinct p f same jobs d.1,
)

none-same :
    (c : Job) (jobs : Store)
    → any (has_id c.id) jobs ≡ false
    → All (λ r. has_id c.id r ≡ true → r ≡ c) jobs
none-same c [] h = tt
none-same c (r ∷ jobs) h =
    ((λ e. absurd (false≢true (sym (off_left h) ∙ e))), none-same c jobs (off_right h))
  where
    off_left : any (has_id c.id) (r ∷ jobs) ≡ false → has_id c.id r ≡ false
    off_left k = ground arith

    off_right : any (has_id c.id) (r ∷ jobs) ≡ false → any (has_id c.id) jobs ≡ false
    off_right k = ground arith

pub any-Member : (c : Job) (jobs : Store) → Member c jobs → any (has_id c.id) jobs ≡ true
any-Member c [] m = elim m [ ]
any-Member c (r ∷ jobs) (at_head e) =
    rw (ap (λ (j : Job). j.id == c.id) (sym e) ∙ eq_refl c.id) refl
any-Member c (r ∷ jobs) (in_tail m) = rw (any-Member c jobs m) (ground arith)

pub Distinct-same :
    (c : Job) (jobs : Store)
    → Distinct jobs
    → Member c jobs
    → All (λ r. has_id c.id r ≡ true → r ≡ c) jobs
Distinct-same c [] d m = tt
Distinct-same c (r ∷ jobs) d (at_head e) =
    ((λ k. sym e), none-same c jobs (ap (λ (j : Job). any (has_id j.id) jobs) e ∙ d.0))
Distinct-same c (r ∷ jobs) d (in_tail m) = (
  (λ k. absurd (
      false≢true (
        sym d.0 ∙ ap (λ id. any (has_id id) jobs) ((eq_iff r.id c.id).0 k) ∙ any-Member c jobs m))),
  Distinct-same c jobs d.1 m,
)
