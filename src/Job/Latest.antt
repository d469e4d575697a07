-- ===== src/Job/Latest.antt =====
-- The row that wins its key in `dedup_latest` of spark/jobs/payments_cdc_job.py, and with it the entry
-- that a batch leaves under a key.
use payments_cdc_pipeline.Prelude.{
  ℕ, ◌<◌, String, List, Bool, true, false, some, In, ltb, ◌||◌, find, find_of_In, text_eq_refl, ◌≡◌,
  ap, ◌∙◌, ◌⊎◌, inl, inr, arith,
}
use mathlib.Core.Path.{subst}
use payments_cdc_pipeline.Change.{Change, Entry}
use payments_cdc_pipeline.Window.{Window, ahead, rank}
use payments_cdc_pipeline.Job.{dedup_latest, latest_first}
use payments_cdc_pipeline.Job.Dedup.{key_of, dedup-In, dedup-HasUniqueKeys, dedup-covers}
use payments_cdc_pipeline.Job.Merge.{entry_key, guarded}
use payments_cdc_pipeline.Job.Guard.{Takes}

-- `d` has the greatest log position of its key in the batch.
abbrev pub Leads : Change → String → List Change → Type 0
Leads d k rows =
    In d rows
    × (d.transaction_id ≡ some k)
    × ((r : Change) → In r rows → r.transaction_id ≡ some k → (r ≡ d) ⊎ (rank r.lsn < rank d.lsn))

below : (a b : ℕ) (rest : Bool) → a < b → (ltb a b || rest) ≡ false → ⊥
below a b rest l h = ground arith

-- The leader of a key is its survivor.
pub leader_survives :
    (window : Window) (rows : List Change) (k : String) (d : Change)
    → Leads d k rows
    → find key_of k (dedup_latest window true rows) ≡ some d
leader_survives window rows k d (m, e, least) =
    let (s, n, f, a) = dedup-covers window true rows d m in
    find_of_In key_of k (dedup_latest window true rows) d (dedup-HasUniqueKeys window true rows k)
      (is_leader s n a (least s (dedup-In window true rows s n) (f ∙ e))) (rw e (text_eq_refl k))
  where
    is_leader :
        (s : Change)
        → In s (dedup_latest window true rows)
        → ahead (latest_first true) d s ≡ false
        → (s ≡ d) ⊎ (rank s.lsn < rank d.lsn)
        → In d (dedup_latest window true rows)
    is_leader s n a (inl q) = subst (λ (x : Change). In x (dedup_latest window true rows)) q n
    is_leader s n a (inr l) = absurd (below _ _ _ l a)

-- What a batch leaves under the key that its leader has.
pub Takes-leader :
    (window : Window) (rows : List Change) (table table' : List Entry) (k : String) (d : Change)
    → Takes window rows table table'
    → Leads d k rows
    → find entry_key k table' ≡ guarded (find entry_key k table) (some d)
Takes-leader window rows table table' k d t l =
    t k ∙ ap (guarded (find entry_key k table)) (leader_survives window rows k d l)
