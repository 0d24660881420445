-- ===== src/HybridCache/Machine/Deletions.antt =====
-- What deletions and peers' events in HybridCache (src/cache/hybridCache.ts) do to a guard that another
-- operation holds.
use lazy_layers.Prelude.{ℕ, refl, Bool, true, false, Option, List, ◌∷◌, ◌||◌, ◌&&◌, not}
use lazy_layers.HybridCache.{CacheKey, key_eq, to_text}
use lazy_layers.HybridCache.Revisions.{Guard}
use lazy_layers.HybridCache.Guards.{Scene, observes, step}
use lazy_layers.HybridCache.Guards.Obsolete.{supersedes}
use lazy_layers.HybridCache.State.{Cache}
use lazy_layers.HybridCache.Generations.{
  advance_after_delete, advance_after_remote_set, is_stale_generation,
}
use lazy_layers.HybridCache.Trust.{Effect}
use lazy_layers.HybridCache.Mutations.{begin_operation, begin_delete, remove_local}
use lazy_layers.HybridCache.Remote.{
  EventKey, event_key, Notation, begin_remote_delete, is_regression, begin_remote_set,
}
use lazy_layers.HybridCache.Machine.{taking_some}
use lazy_layers.HybridCache.Machine.Moves.{
  scene_of, then-Moves, tested-Moves, Moves, still-Moves, Moves-trans, event-Moves, Light-Moves,
  cores-Moves, saturate-Moves, advance_after_delete-Moves, advance_after_remote_set-Moves,
}

-- Whether the first segment of a round of a peer's deletion begins the deletion of k.
abbrev pub deletes_key : Notation → CacheKey → EventKey → Option ℕ → Cache → Bool
deletes_key n k e o c =
    not c.core.is_closed && (not (is_regression n e o c) && key_eq (event_key n e) k)

module _ (a : Bool) (g : Guard) where
  abbrev pub MovesTaking : Bool → Cache → List Guard → Cache × Guard × List Effect → Type 0
  MovesTaking hit c gs (c', g', fx) = Moves a g hit (c.core, gs) (c'.core, g' ∷ gs)

  pub begin-Moves :
      (k : CacheKey) (m : Bool) (c : Cache) (gs : List Guard)
      → let (c', g') = begin_operation k m c in
        Moves a g (m && key_eq k g.key) (c.core, gs) (c'.core, g' ∷ gs)
  unfolding begin_operation step supersedes
  begin-Moves k m c gs = event-Moves a g (observes k m) c.core gs

  pub begin_delete-Moves :
      (k : CacheKey) (o : Option ℕ) (c : Cache) (gs : List Guard)
      → MovesTaking (key_eq k g.key) c gs (begin_delete k o c)
  unfolding begin_delete remove_local
  begin_delete-Moves k o c gs =
      let (c1, g') = begin_operation k true c in
      let c2 = remove_local k c1 in
      let c3 = (advance_after_delete (to_text k) o c2).0 in
      let later =
        cores-Moves a g c1.core c2.core c3.core (g' ∷ gs) (Light-Moves a g c1 c2 (g' ∷ gs) refl)
          (advance_after_delete-Moves a g c2 (g' ∷ gs) (to_text k) o) in
      then-Moves a g (key_eq k g.key) (c.core, gs) (c1.core, g' ∷ gs) (c3.core, g' ∷ gs)
        (begin-Moves k true c gs) later

  module _ (n : Notation) where
    pub begin_remote_delete-Moves :
        (k : EventKey) (o : Option ℕ) (c : Cache) (gs : List Guard)
        → Moves a g
            (deletes_key n g.key k o c)
            (c.core, gs)
            (scene_of (taking_some gs (begin_remote_delete n k o c)))
    unfolding begin_remote_delete
    begin_remote_delete-Moves k o c gs =
        let taken : Cache × Option Guard × List Effect → Scene = λ r. scene_of (taking_some gs r) in
        let hit = key_eq (event_key n k) g.key in
        tested-Moves a g taken c.core.is_closed (not (is_regression n k o c) && hit) (c.core, gs)
          (still-Moves a g (c.core, gs))
          (tested-Moves a g taken (is_regression n k o c) hit (c.core, gs) (saturate-Moves a g c gs)
            (begin_delete-Moves (event_key n k) o c gs))

    pub begin_remote_set-Moves :
        (k : EventKey) (o : Option ℕ) (c : Cache) (gs : List Guard)
        → Moves a g
            (not (c.core.is_closed || is_stale_generation k.0 o c) && key_eq (event_key n k) g.key)
            (c.core, gs)
            (scene_of (taking_some gs (begin_remote_set n k o c)))
    unfolding begin_remote_set
    begin_remote_set-Moves (k, t) o c gs =
        let hit = key_eq (event_key n (k, t)) g.key in
        let c1 = (advance_after_remote_set k o c).0 in
        let (c2, g') = begin_operation (event_key n (k, t)) true c1 in
        let m =
          Moves-trans a g false hit (c.core, gs) (c1.core, gs) (c2.core, g' ∷ gs)
            (advance_after_remote_set-Moves a g c gs k o)
            (begin-Moves (event_key n (k, t)) true c1 gs) in
        tested-Moves a g (λ (r : Cache × Option Guard × List Effect). scene_of (taking_some gs r))
          (c.core.is_closed || is_stale_generation k o c) hit (c.core, gs)
          (still-Moves a g (c.core, gs)) m
