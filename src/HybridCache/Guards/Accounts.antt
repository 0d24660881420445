-- ===== src/HybridCache/Guards/Accounts.antt =====
-- The table of key revisions (src/cache/hybridCache.ts) does not leak.
use lazy_layers.Prelude.{
  ℕ, ◌≡◌, ◌≤◌, Bool, Option, none, some, List, [], arith, sum_by, Option-cases, inl, inr, ◌∙◌, ap,
}
use lazy_layers.Prelude.Maps.{find, none_found}
use lazy_layers.MemoryBudget.{Budget}
use lazy_layers.HybridCache.{CacheKey, key_Eq, max_auxiliary_map_bytes}
use lazy_layers.HybridCache.Revisions.{Revisions, Guard}
use lazy_layers.HybridCache.Revisions.Invariant.{Inv, count, entry_bytes}
use lazy_layers.HybridCache.Guards.{Event, Scene, pass_all}
use lazy_layers.HybridCache.Guards.Obsolete.{open_core, reached-Inv}

unheld :
    (r : Revisions) (gs : List Guard) → Inv r gs → gs ≡ [] → (k : CacheKey) → find k r.table ≡ none
unheld r gs v e k = elim (Option-cases (find k r.table)) [
  | inl n ↦ n
  | inr (i, f) ↦
      let w = v.entries k i f in
      let idle : count i gs ≡ 0 = ap (count i) e in
      absurd (ground (arith, w.referred, v.counted i w.created, idle))
]

-- What is left in the table once all operations have ended.
abbrev pub Settles : Scene → Type 0
Settles (c, gs) =
    let r = c.revisions in
    (r.table_bytes ≡ sum_by entry_bytes r.table)
    × (r.table_bytes ≤ max_auxiliary_map_bytes)
    × ((k : CacheKey) (i : ℕ) → find k r.table ≡ some i → (r.states i).references ≡ count i gs)
    × (gs ≡ [] → (r.table ≡ []) × (r.table_bytes ≡ 0))

-- After any history: the bytes of the table of key revisions are those of its entries and at most
-- 2 MiB, every entry counts the guards that refer to it, and when no operation holds a guard, the
-- table is empty and its bytes are 0.
pub pass_all-Settles :
    (v t : Bool) (b : Option Budget) (es : List Event) → Settles (pass_all es (open_core v t b, []))
pass_all-Settles v t b es =
    let (c, gs) = pass_all es (open_core v t b, []) in
    let w = reached-Inv v t b es in
    let r = c.revisions in
    (
      w.exact,
      w.bounded,
      λ k i f. w.counted i (w.entries k i f).created,
      λ e.
          let empty = none_found r.table (unheld r gs w e) in
          (empty, w.exact ∙ ap (sum_by entry_bytes) empty),
    )
