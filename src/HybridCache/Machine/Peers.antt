-- ===== src/HybridCache/Machine/Peers.antt =====
-- The events of peers keep the accounts of HybridCache (src/cache/hybridCache.ts).
use lazy_layers.Prelude.{ℕ, true, Option, none, some, List, ◌||◌, Text, text_eq, if_lem, get_or}
use lazy_layers.HybridCache.{key_Eq, text_Eq}
use lazy_layers.HybridCache.Revisions.{Guard}
use lazy_layers.HybridCache.State.{Cache}
use lazy_layers.HybridCache.Seen.{has_seen_event}
use lazy_layers.HybridCache.Trust.{Effect}
use lazy_layers.HybridCache.Generations.{is_stale_generation, advance_after_remote_set}
use lazy_layers.HybridCache.Remote.{
  Raw, object, encoded, EventKey, event_key, Notation, InvalidationEvent, receive, receive_decoded,
  receive_event, is_foreign, legacy_event_id, begin_remote_delete, is_regression, begin_remote_set,
}
use lazy_layers.HybridCache.Ledger.{Accounts}
use lazy_layers.HybridCache.Ledger.Entries.{has_seen_event-Keeps, mark_event_seen-Keeps}
use lazy_layers.HybridCache.Ledger.Revised.{begin_operation-Keeps}
use lazy_layers.HybridCache.Ledger.Whole.{saturate-Keeps, advance_after_remote_set-Keeps}
use lazy_layers.HybridCache.Ledger.Operations.{begin_delete-Keeps, mark_untrusted-Keeps}
use lazy_layers.HybridCache.Machine.{World, taking_some}

module _ (m0 s0 : ℕ) where
  -- The accounts of a world.
  abbrev pub Balanced : World → Type 0
  Balanced (c, gs) = Accounts m0 s0 c gs

  abbrev pub Answers {ℓ} : List Guard → {A : Type ℓ} → Cache × A → Type 0
  Answers gs (c, a) = Accounts m0 s0 c gs

  receive_event-Answers :
      (now : ℕ) (source : Text) (e : InvalidationEvent) (c : Cache) (gs : List Guard)
      → Accounts m0 s0 c gs
      → Answers gs (receive_event now source e c)
  unfolding receive_event
  receive_event-Answers now source e c gs v =
      let id = get_or e.id (legacy_event_id e) in
      let (c', is_seen) = has_seen_event now id c in
      let v' = has_seen_event-Keeps m0 s0 c gs v now id in
      let marked = mark_event_seen-Keeps m0 s0 c' gs v' now id in
      if_lem (Answers gs) is_seen v' (if_lem (Answers gs) (text_eq e.source source) marked marked)

  receive_decoded-Answers :
      (now : ℕ) (source : Text) (namespace : Option Text) (e : Option InvalidationEvent) (c : Cache)
      (gs : List Guard)
      → Accounts m0 s0 c gs
      → Answers gs (receive_decoded now source namespace e c)
  unfolding receive_decoded
  receive_decoded-Answers now source namespace none c gs v = mark_untrusted-Keeps m0 s0 c gs v
  receive_decoded-Answers now source namespace (some e) c gs v =
      if_lem (Answers gs) (is_foreign namespace e.namespace) v
        (receive_event-Answers now source e c gs v)

  pub receive-Answers :
      (now : ℕ) (source : Text) (namespace : Option Text) (raw : Raw) (c : Cache) (gs : List Guard)
      → Accounts m0 s0 c gs
      → Answers gs (receive now source namespace raw c)
  unfolding receive
  receive-Answers now source namespace (object n e) c gs v =
      if_lem (Answers gs) (c.core.is_closed || is_foreign namespace n) v
        (receive_decoded-Answers now source namespace e c gs v)
  receive-Answers now source namespace (encoded e) c gs v =
      if_lem (Answers gs) c.core.is_closed v (receive_decoded-Answers now source namespace e c gs v)

  module _ (n : Notation) where
    abbrev pub TakesSome : List Guard → Cache × Option Guard × List Effect → Type 0
    TakesSome gs r = Balanced (taking_some gs r)

    pub begin_remote_delete-Balanced :
        (k : EventKey) (o : Option ℕ) (c : Cache) (gs : List Guard)
        → Accounts m0 s0 c gs
        → TakesSome gs (begin_remote_delete n k o c)
    unfolding begin_remote_delete
    begin_remote_delete-Balanced k o c gs v = if_lem (TakesSome gs) c.core.is_closed v (
        if_lem (TakesSome gs) (is_regression n k o c) (saturate-Keeps m0 s0 c gs v)
          (begin_delete-Keeps m0 s0 (event_key n k) o c gs v))

    pub begin_remote_set-Balanced :
        (k : EventKey) (o : Option ℕ) (c : Cache) (gs : List Guard)
        → Accounts m0 s0 c gs
        → TakesSome gs (begin_remote_set n k o c)
    unfolding begin_remote_set
    begin_remote_set-Balanced (k, t) o c gs v =
        let (c', fx) = advance_after_remote_set k o c in
        let v' = advance_after_remote_set-Keeps m0 s0 c gs v k o in
        let v'' = begin_operation-Keeps m0 s0 c' gs v' (event_key n (k, t)) true in
        if_lem (TakesSome gs) (c.core.is_closed || is_stale_generation k o c) v v''
