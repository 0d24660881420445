-- ===== src/HybridCache/Guards/Obsolete.antt =====
-- When a guard that is held stops being current (src/cache/hybridCache.ts, isCurrent).
use lazy_layers.Prelude.{
  ℕ, ◌≡◌, ◌≤◌, refl, sym, ◌∙◌, Bool, true, false, Option, none, some, List, [], ◌∷◌, ◌&&◌, ◌||◌,
  not, ◌==◌, arith, take_at, Bool-cases, inl, inr,
}
use lazy_layers.Prelude.Maps.{find, IsUnique}
use lazy_layers.MemoryBudget.{Budget}
use lazy_layers.HybridCache.{CacheKey, key_Eq, key_eq}
use lazy_layers.HybridCache.Revisions.{
  Revisions, KeyRevision, Guard, put_state, observe, find_state, create_state, refer, is_place,
}
use lazy_layers.HybridCache.Revisions
use lazy_layers.HybridCache.Core.{
  Core, observe_key, release_key, is_current, versioned_cache_safe, close_core,
}
use lazy_layers.HybridCache.Revisions.Invariant.{Inv, observe-Inv}
use lazy_layers.HybridCache.Revisions.{forget_all}
use lazy_layers.HybridCache.Revisions.Forget.{forget_all-Inv, unregister_keeps}
use lazy_layers.HybridCache.Revisions.Release.{release_key-Inv}
use lazy_layers.HybridCache.Guards.{
  step-Inv, Event, observes, releases, advances, saturates, closes, changes, Scene, SceneInv, step,
  pass_all, Taken, take_at-Taken, release_found,
}
use lazy_layers.HybridCache.Guards.Raised.{permute-Inv, Raised, observe-Raised, release-Raised}

-- A guard that is held beside those of the list.
pub record Held (g : Guard) (c : Core) (gs : List Guard) : Type 0 where
  pub all : Inv c.revisions (g ∷ gs)
  pub taken_before :
      (c.revisions.states g.place).registered ≡ true
      → g.revision ≤ (c.revisions.states g.place).value
  pub epoch_before : g.epoch ≤ c.epoch

abbrev pub HeldIn : Guard → Scene → Type 0
HeldIn g (c, gs) = Held g c gs

-- The events that make a guard of k obsolete.
unfoldable pub supersedes : CacheKey → Event → Core → Bool
supersedes k (observes j m) c = m && key_eq j k
supersedes k (releases n) c = false
supersedes k advances c = true
supersedes k saturates c = not c.saturated
supersedes k (closes n) c = true
supersedes k (changes b m n t i s) c = false

unfoldable pub superseded : CacheKey → List Event → Scene → Bool
superseded k [] s = false
superseded k (e ∷ es) s = let rest = superseded k es (step e s) in supersedes k e s.0 || rest

-- What an event does to a guard that is held.
abbrev pub Follows : Bool → Guard → Event → Core → Scene → Type 0
Follows a g e c (c', gs') =
    Held g c' gs' × (is_current a g c' ≡ (is_current a g c && not (supersedes g.key e c)))

still_before :
    (hit : Bool) (n : ℕ) (s s' : KeyRevision)
    → Raised hit s s'
    → (s.registered ≡ true → n ≤ s.value)
    → s'.registered ≡ true
    → n ≤ s'.value
still_before hit n s s' (t, f) h u =
    let was : s.registered ≡ true = sym t ∙ u in ground (arith, f was, h was)

still_current :
    (x y z w : Bool) (n : ℕ) (hit : Bool) (s s' : KeyRevision)
    → Raised hit s s'
    → (s.registered ≡ true → n ≤ s.value)
    → (x && s'.registered && y && z && w && n == s'.value)
      ≡ ((x && s.registered && y && z && w && n == s.value) && not hit)
still_current x y z w n hit s s' (t, f) h = elim (Bool-cases s.registered) [
  | inl e ↦ rw (t, e) (ground (arith, f e, h e))
  | inr e ↦ rw (t, e) (ground arith)
]

observes-Follows :
    (a : Bool) (g : Guard) (k : CacheKey) (m : Bool) (c : Core) (gs : List Guard)
    → Held g c gs
    → Follows a g (observes k m) c (step (observes k m) (c, gs))
unfolding step observe_key is_current supersedes
observes-Follows a g k m c gs h =
    let s = c.revisions.states g.place in
    let s' = (observe k m c.budget c.revisions).1.states g.place in
    let hit = m && key_eq k g.key in
    let raised = observe-Raised g gs m k c.budget c.revisions h.all in
    let g' = (observe_key k m c).1 in
    let v = observe-Inv m k c.budget (g ∷ gs) c.revisions h.all g' refl refl in
    (
      record {
        all =
            permute-Inv _ (g' ∷ g ∷ gs) (g ∷ g' ∷ gs) v (λ i. omega arith)
              (v.guards.1.0, (v.guards.0, v.guards.1.1));
        taken_before = still_before hit g.revision s s' raised h.taken_before;
        epoch_before = h.epoch_before;
      },
      still_current (not c.is_closed) (versioned_cache_safe c) (not a) (g.epoch == c.epoch)
          g.revision hit s s' raised h.taken_before,
    )

-- The guards of the list without the one that is taken out.
abbrev FollowsRelease : Bool → Guard → Core → Scene → Type 0
FollowsRelease a g c (c', gs') = Held g c' gs' × (is_current a g c' ≡ is_current a g c)

release_found-Follows :
    (a : Bool) (g : Guard) (c : Core) (gs : List Guard) (o : Option (Guard × List Guard))
    → Held g c gs
    → Taken c gs o
    → FollowsRelease a g c (release_found c gs o)
unfolding release_found release_key is_current versioned_cache_safe
release_found-Follows a g c gs none h t = (h, refl)
release_found-Follows a g c gs (some (g', rest)) h t =
    let s = c.revisions.states g.place in
    let r' = (Revisions.release_key g' c.budget c.revisions).1 in
    let mine = h.all.guards.0 in
    let raised =
      release-Raised g g' rest (g ∷ gs) c.budget c.revisions mine.created h.all
        (λ i. omega (arith, t.2 i)) in
    let v =
      release_key-Inv g' (g ∷ rest) (g ∷ gs) c.revisions h.all (λ i. omega (arith, t.2 i))
        (mine, t.1) t.0 c.budget in
    (
      record {
        all = v;
        taken_before = still_before false g.revision s (r'.states g.place) raised h.taken_before;
        epoch_before = h.epoch_before;
      },
      still_current (not c.is_closed) (versioned_cache_safe c) (not a) (g.epoch == c.epoch)
            g.revision false s (r'.states g.place) raised h.taken_before
          ∙ ground arith,
    )

pub step-Follows :
    (a : Bool) (g : Guard) (e : Event) (c : Core) (gs : List Guard)
    → Held g c gs
    → Follows a g e c (step e (c, gs))
unfolding step is_current supersedes versioned_cache_safe close_core forget_all
step-Follows a g (observes k m) c gs h = observes-Follows a g k m c gs h
step-Follows a g (releases n) c gs h =
    let (h', e) =
      release_found-Follows a g c gs (take_at n gs) h (take_at-Taken c n gs h.all.guards.1) in
    (h', e ∙ ground arith)
step-Follows a g advances c gs h = (
  record {
    all = h.all;
    taken_before = h.taken_before;
    epoch_before = ground (arith, h.epoch_before);
  },
  ground (arith, h.epoch_before),
)
step-Follows a g saturates c gs h = elim (Bool-cases c.saturated) [
  | inl e ↦ rw e (
    record { all = h.all; taken_before = h.taken_before; epoch_before = h.epoch_before },
    ground (arith, e),
  )
  | inr e ↦ rw e (
    record {
      all = h.all;
      taken_before = h.taken_before;
      epoch_before = ground (arith, h.epoch_before);
    },
    ground (arith, h.epoch_before),
  )
]
step-Follows a g (closes n) c gs h =
    let (value, references, registered) =
      unregister_keeps c.revisions.table c.revisions.states g.place in
    (
      record {
        all = forget_all-Inv c.revisions (g ∷ gs) h.all;
        taken_before = λ t. ground (arith, value, h.taken_before (registered t));
        epoch_before = omega (arith, h.epoch_before);
      },
      ground arith,
    )
step-Follows a g (changes b m n t i s) c gs h = (
  record { all = h.all; taken_before = h.taken_before; epoch_before = h.epoch_before },
  ground arith,
)

pass_all-Held :
    (a : Bool) (g : Guard) (es : List Event) (s : Scene)
    → HeldIn g s
    → is_current a g (pass_all es s).0 ≡ (is_current a g s.0 && not (superseded g.key es s))
unfolding pass_all superseded
pass_all-Held a g [] s h = ground arith
pass_all-Held a g (e ∷ es) (c, gs) h =
    let (h', now) = step-Follows a g e c gs h in
    let later = pass_all-Held a g es (step e (c, gs)) h' in later ∙ ground (arith, now)

-- The start of a cache: nothing is held.
unfoldable pub open_core : Bool → Bool → Option Budget → Core
open_core versioned trusted b = record {
  versioned = versioned;
  budget = b;
  is_closed = false;
  trusted = trusted;
  saturated = false;
  epoch = 0;
  invalidation_revision = 0;
  bus_status = none;
  generations = [];
  generation_bytes = 0;
  revisions = record {
    table = [];
    states = λ i. record { value = 0; references = 0; bytes = 0; registered = false };
    next = 0;
    table_bytes = 0;
  };
}

open_core-Inv : (v t : Bool) (b : Option Budget) → SceneInv (open_core v t b, [])
unfolding open_core find IsUnique
open_core-Inv v t b = record {
  entries = λ k i e. ground arith;
  injective = λ j k i e e'. ground arith;
  counted = λ i l. omega arith;
  guards = tt;
  unique = tt;
  exact = refl;
  bounded = omega arith;
}

pass_all-Inv : (es : List Event) (s : Scene) → SceneInv s → SceneInv (pass_all es s)
unfolding pass_all
pass_all-Inv [] s v = v
pass_all-Inv (e ∷ es) s v = pass_all-Inv es (step e s) (step-Inv e s v)

pub reached-Inv :
    (v t : Bool) (b : Option Budget) (es : List Event)
    → SceneInv (pass_all es (open_core v t b, []))
reached-Inv v t b es = pass_all-Inv es (open_core v t b, []) (open_core-Inv v t b)

pub observed-Held :
    (k : CacheKey) (m : Bool) (c : Core) (gs : List Guard)
    → Inv c.revisions gs
    → Held (observe_key k m c).1 (observe_key k m c).0 gs
unfolding observe_key
observed-Held k m c gs v = record {
  all = observe-Inv m k c.budget gs c.revisions v (observe_key k m c).1 refl refl;
  taken_before = λ t. omega arith;
  epoch_before = omega arith;
}

-- After any history, an operation observes a key; then, after any other history during which it
-- still holds its guard, the guard is current exactly if it was so when it was taken and nothing
-- superseded it since: no mutation of its key began, the mutation epoch was not advanced, generation
-- tracking was not given up and the cache was not closed.
pub is_current-pass_all :
    (v t : Bool) (b : Option Budget) (before es : List Event) (k : CacheKey) (m aborted : Bool)
    → let (c, gs) = pass_all before (open_core v t b, []) in
      let (c', g) = observe_key k m c in
      is_current aborted g (pass_all es (c', gs)).0
      ≡ (is_current aborted g c' && not (superseded k es (c', gs)))
unfolding observe_key
is_current-pass_all v t b before es k m aborted =
    let (c, gs) = pass_all before (open_core v t b, []) in
    pass_all-Held aborted (observe_key k m c).1 es ((observe_key k m c).0, gs)
      (observed-Held k m c gs (reached-Inv v t b before))
