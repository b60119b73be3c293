-- ===== src/Ingestion/Steps.antt =====
-- The writes of a transaction that commits, one after the other, and what each of them changes.
use soulmate.Prelude.{
  ◌≡◌, sym, ap, ◌∙◌, Bool, true, false, some, List, [], ◌∷◌, ◌++◌, any, inl, inr, Bool-cases,
}
pub use soulmate.Exec.{reached}
use soulmate.Exec.{ok, ok_inj, ok-ne-err}
use soulmate.Domain.Decisions.{DecisionOption}
use soulmate.Domain.Evidence.{Evidence}
use soulmate.Ingestion.Records.{IngestionWrite, IngestionResult}
use soulmate.Ingestion.Store.{
  insert_if, has_decision, has_event, IngestionStore, insert, insert_event, insert_options,
  insert_decision, insert_resolution_observation, insert_outcome_observation, insert_evidence,
  option_clash, evidence_clash,
}
use soulmate.Ingestion.Transaction.{apply_if_any, ingest_new, ingested}

-- A row that is inserted clashes with none.
pub inserted {ℓ} :
    {A : Type ℓ} {rows' : List A} (clash : A → A → Bool) (row : A) (rows : List A)
    → insert clash row rows ≡ ok rows'
    → (any (clash row) rows ≡ false) × (rows' ≡ rows ++ row ∷ [])
inserted clash row rows h = elim (Bool-cases (any (clash row) rows)) [
  | inl bad ↦ absurd (ok-ne-err (sym (rw bad at h)))
  | inr free ↦ (free, sym (ok_inj (rw free at h)))
]

pub inserted_if {ℓ} :
    {A : Type ℓ} {rows' : List A} (fits : Bool) (clash : A → A → Bool) (row : A) (rows : List A)
    → insert_if fits clash row rows ≡ ok rows'
    → (any (clash row) rows ≡ false) × (rows' ≡ rows ++ row ∷ [])
inserted_if false clash row rows h = absurd (ok-ne-err (sym h))
inserted_if true clash row rows h = inserted clash row rows h

module _ (w : IngestionWrite) (s : IngestionStore) where
  pub record Committed (result : IngestionResult) (s' : IngestionStore) : Type 0 where
    pub s1 : IngestionStore
    pub s2 : IngestionStore
    pub s3 : IngestionStore
    pub s4 : IngestionStore
    pub event : insert_event w.event s ≡ ok s1
    pub decision : insert_decision w.decision s1 ≡ ok s2
    pub resolution_observation : insert_resolution_observation w.resolution_observation s2 ≡ ok s3
    pub outcome_observation : insert_outcome_observation w.outcome_observation s3 ≡ ok s4
    pub resolution : apply_if_any w.resolution w.evidence s4 ≡ ok s'
    pub result_is : result ≡ ingested w

  pub ingest_new-Committed :
      {result : IngestionResult} {s' : IngestionStore}
      → ingest_new w s ≡ ok (result, s')
      → Committed result s'
  unfolding ingest_new
  ingest_new-Committed h =
      let (s1, h1, k1) = reached _ _ h in
      let (s2, h2, k2) = reached _ _ k1 in
      let (s3, h3, k3) = reached _ _ k2 in
      let (s4, h4, k4) = reached _ _ k3 in
      let (s5, h5, k5) = reached _ _ k4 in
      let same = ok_inj k5 in
      record {
        s1 = s1;
        s2 = s2;
        s3 = s3;
        s4 = s4;
        event = h1;
        decision = h2;
        resolution_observation = h3;
        outcome_observation = h4;
        resolution = h5 ∙ ap (λ (p : IngestionResult × IngestionStore). ok p.1) same;
        result_is = sym (ap (λ (p : IngestionResult × IngestionStore). p.0) same);
      }

-- What a write leaves alone: a view of the store that does not look at the tables it changes.
module _ {ℓ} {T : Type ℓ} (view : IngestionStore → T) where
  pub options-kept :
      ((s : IngestionStore) (rows : List DecisionOption)
        → view (record s { options = rows }) ≡ view s)
      → (options : List DecisionOption) (s s' : IngestionStore) → insert_options options s ≡ ok s'
      → view s' ≡ view s
  unfolding insert_options
  options-kept blind [] s s' h = ap view (sym (ok_inj h))
  options-kept blind (o ∷ options) s s' h =
      let (rows, _, k) =
        reached (insert_if (has_decision (some o.decision_id) s) option_clash o s.options)
          (λ x. insert_options options (record s { options = x })) h in
      options-kept blind options (record s { options = rows }) s' k ∙ blind s rows

  pub evidence-kept :
      ((s : IngestionStore) (rows : List Evidence)
        → view (record s { keys = record s.keys { evidence = rows } }) ≡ view s)
      → (items : List Evidence) (s s' : IngestionStore) → insert_evidence items s ≡ ok s'
      → view s' ≡ view s
  unfolding insert_evidence
  evidence-kept blind [] s s' h = ap view (sym (ok_inj h))
  evidence-kept blind (e ∷ items) s s' h =
      let (rows, _, k) =
        reached (insert_if (has_event e.source_event_id s) evidence_clash e s.keys.evidence)
          (λ x. insert_evidence items (record s { keys = record s.keys { evidence = x } })) h in
      evidence-kept blind items (record s { keys = record s.keys { evidence = rows } }) s' k
      ∙ blind s rows
