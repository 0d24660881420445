-- ===== src/HybridCache/Machine/LightEnds.antt =====
-- The last segments of the operations of HybridCache (src/cache/hybridCache.ts), and what it does with
-- an event that it receives, change no more of its core than what the budget holds.
use lazy_layers.Prelude.{
  ℕ, refl, Bool, false, Option, List, ◌||◌, not, Text, text_eq, if_lem, get_or,
}
use lazy_layers.HybridCache.Revisions.{Guard}
use lazy_layers.HybridCache.Core.{is_current}
use lazy_layers.HybridCache.State.{Cache}
use lazy_layers.HybridCache.Generations.{is_stale_generation}
use lazy_layers.HybridCache.Trust.{Effect}
use lazy_layers.HybridCache.Inflight.{remove_inflight}
use lazy_layers.HybridCache.Mutations.{
  finish_write, finish_l1_hit, finish_l2_hit, finish_empty_load,
}
use lazy_layers.HybridCache.Remote.{
  Notation, InvalidationEvent, receive_event, legacy_event_id, finish_remote_absent,
  finish_remote_set,
}
use lazy_layers.HybridCache.Machine.Light.{Light, LightWith}
use lazy_layers.HybridCache.State.{with_inflight, with_negative}
use lazy_layers.HybridCache.Negative.{set_negative, remove_negative}
use lazy_layers.HybridCache.Stale.{remember_stale, get_stale}
use lazy_layers.HybridCache.Seen.{has_seen_event, mark_event_seen}
use lazy_layers.HybridCache.Machine.{
  Last, finish_last, ends, writes, hits_l1, hits_l2, finds_nothing, learns_absence, learns_value,
}
use lazy_layers.HybridCache.Machine.Light.{
  Light-trans, set_negative-Light, remember_stale-Light, get_stale-Light, has_seen_event-Light,
  mark_event_seen-Light,
}

module _ {V : Type 0} (encode : V → Option Text) (decode : Text → Option V) where
  pub finish_last-Light :
      (f : Last V) (n : Notation) (g : Guard) (c : Cache)
      → Light c (finish_last encode decode n f g c)
  unfolding finish_last finish_write finish_l1_hit finish_l2_hit finish_empty_load
      finish_remote_absent finish_remote_set
  finish_last-Light ends n g c = refl
  finish_last-Light (writes now value o reusable own_l1 aborted) n g c =
      let c' = remember_stale encode decode now g.key value o reusable c in
      let c'' = with_negative c' (remove_negative g.key (c'.core.budget, c'.negative)) in
      if_lem (λ (r : Cache × List Effect × Bool). Light c r.0) (not (is_current aborted g c.core))
        refl
        (Light-trans c c' c'' (remember_stale-Light encode decode now g.key value o reusable c)
          refl)
  finish_last-Light (hits_l1 now value reusable aborted) n g c =
      if_lem (Light c) (not (is_current aborted g c.core) || not c.core.trusted) refl
        (remember_stale-Light encode decode now g.key value c.options reusable c)
  finish_last-Light (hits_l2 now value reusable own_l1 aborted) n g c =
      if_lem (LightWith c) (not c.core.trusted || not (is_current aborted g c.core)) refl
        (remember_stale-Light encode decode now g.key value c.options reusable c)
  finish_last-Light (finds_nothing now o allowed aborted) n g c =
      let c' = set_negative now g.key o c in
      let c'' = (get_stale encode decode now g.key c').0 in
      if_lem (LightWith c) (not allowed) refl (
        if_lem (LightWith c) (not (is_current aborted g c.core)) refl (
          Light-trans c c' c'' (set_negative-Light now g.key o c)
            (get_stale-Light encode decode now g.key c')))
  finish_last-Light learns_absence n g c = refl
  finish_last-Light (learns_value now raw generation value o reusable own_l1) n g c =
      let c' = remember_stale encode decode now g.key value o reusable c in
      let c1 = with_negative c' (remove_negative g.key (c'.core.budget, c'.negative)) in
      let c2 = with_inflight c1 (remove_inflight g.key (c1.core.budget, c1.inflight)) in
      if_lem (LightWith c)
        (not (is_current false g c.core)
          || not c.core.trusted
          || is_stale_generation raw generation c)
        refl
        (Light-trans c c' c2 (remember_stale-Light encode decode now g.key value o reusable c) refl)

pub receive_event-Light :
    (now : ℕ) (source : Text) (e : InvalidationEvent) (c : Cache)
    → LightWith c (receive_event now source e c)
unfolding receive_event
receive_event-Light now source e c =
    let id = get_or e.id (legacy_event_id e) in
    let (c', is_seen) = has_seen_event now id c in
    let first = has_seen_event-Light now id c in
    let marked =
      Light-trans c c' (mark_event_seen now id c') first (mark_event_seen-Light now id c') in
    if_lem (LightWith c) is_seen first
      (if_lem (LightWith c) (text_eq e.source source) marked marked)
