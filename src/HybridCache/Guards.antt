-- ===== src/HybridCache/Guards.antt =====
-- Histories of the key revisions: operations take guards and release them, and other events make
-- guards obsolete (src/cache/hybridCache.ts).
mod Raised
pub mod Obsolete
pub mod Accounts
mod Tests
use lazy_layers.Prelude.{
  ℕ, zero, suc, ◌+◌, ◌≡◌, ◌≤◌, refl, Bool, true, false, Option, none, some, List, [], ◌∷◌, ◌||◌,
  not, ◌==◌, if◌then◌else◌, arith, Text, take_at, cons_rest, if_lem,
}
use lazy_layers.Prelude.Maps.{Map}
use lazy_layers.MemoryBudget.{Budget}
use lazy_layers.HybridCache.{CacheKey, key_eq}
use lazy_layers.HybridCache.Revisions.{Guard}
use lazy_layers.HybridCache.Core.{Core, BusStatus, observe_key, release_key, close_core}
use lazy_layers.HybridCache.Revisions.Invariant.{Inv, Finds, AllFind, count, observe-Inv}
use lazy_layers.HybridCache.Revisions.Forget.{forget_all-Inv}
use lazy_layers.HybridCache.Revisions.Release.{release_key-Inv}

-- `observes k true` is the start of a mutation of k (set, delete, or a peer's event), and `observes k
-- false` that of a read or a load; `releases n` is the end of the operation that holds the n-th guard;
-- `advances` is a pattern deletion, lost trust or restored trust; `saturates` is the end of generation
-- tracking, and `changes` is whatever else changes the budget, the generations and the trust.
pub data Event : Type 0 where
  observes : CacheKey → Bool → Event
  releases : ℕ → Event
  advances : Event
  saturates : Event
  closes : ℕ → Event
  changes : Option Budget → Map Text ℕ → ℕ → Bool → ℕ → Option BusStatus → Event

-- A cache with the guards that are held.
abbrev pub Scene : Type 0
Scene = Core × List Guard

abbrev pub hold : Core × Guard → List Guard → Scene
hold (c, g) gs = (c, g ∷ gs)

unfoldable pub release_found : Core → List Guard → Option (Guard × List Guard) → Scene
release_found c gs none = (c, gs)
release_found c gs (some (g, rest)) = (release_key g c, rest)

unfoldable pub step : Event → Scene → Scene
unfolding release_found close_core
step (observes k m) (c, gs) = hold (observe_key k m c) gs
step (releases n) (c, gs) = release_found c gs (take_at n gs)
step advances (c, gs) = (record c { epoch = suc c.epoch }, gs)
step saturates (c, gs) =
    (if c.saturated then c else record c { saturated = true; epoch = suc c.epoch }, gs)
step (closes n) (c, gs) = (close_core n c, gs)
step (changes b m n t i s) (c, gs) = (
  record c {
    budget = b;
    generations = m;
    generation_bytes = n;
    trusted = t;
    invalidation_revision = i;
    bus_status = s;
  },
  gs,
)

unfoldable pub pass_all : List Event → Scene → Scene
pass_all [] s = s
pass_all (e ∷ es) s = pass_all es (step e s)

abbrev pub SceneInv : Scene → Type 0
SceneInv (c, gs) = Inv c.revisions gs

-- What a guard that is taken out of the list leaves.
abbrev pub Taken : (r : Core) → List Guard → Option (Guard × List Guard) → Type 0
Taken c gs none = Unit
Taken c gs (some (g, rest)) =
    Finds c.revisions g × AllFind c.revisions rest × ((i : ℕ) → count i gs ≡ count i (g ∷ rest))

cons_rest-Taken :
    (c : Core) (g : Guard) (gs : List Guard) (o : Option (Guard × List Guard))
    → Finds c.revisions g
    → Taken c gs o
    → Taken c (g ∷ gs) (cons_rest g o)
cons_rest-Taken c g gs none v h = tt
cons_rest-Taken c g gs (some (g', rest)) v h = (h.0, (v, h.1), λ i. ground (arith, h.2 i))

pub take_at-Taken :
    (c : Core) (n : ℕ) (gs : List Guard) → AllFind c.revisions gs → Taken c gs (take_at n gs)
take_at-Taken c n [] v = tt
take_at-Taken c zero (g ∷ gs) v = (v.0, v.1, λ i. refl)
take_at-Taken c (suc n) (g ∷ gs) v =
    cons_rest-Taken c g gs (take_at n gs) v.0 (take_at-Taken c n gs v.1)

release_found-Inv :
    (c : Core) (gs : List Guard) (o : Option (Guard × List Guard))
    → Taken c gs o
    → SceneInv (c, gs)
    → SceneInv (release_found c gs o)
unfolding release_found release_key
release_found-Inv c gs none h v = v
release_found-Inv c gs (some (g, rest)) h v =
    release_key-Inv g rest gs c.revisions v h.2 h.1 h.0 c.budget

pub step-Inv : (e : Event) (s : Scene) → SceneInv s → SceneInv (step e s)
unfolding step observe_key close_core
step-Inv (observes k m) (c, gs) v =
    observe-Inv m k c.budget gs c.revisions v (observe_key k m c).1 refl refl
step-Inv (releases n) (c, gs) v =
    release_found-Inv c gs (take_at n gs) (take_at-Taken c n gs v.guards) v
step-Inv advances (c, gs) v = v
step-Inv saturates (c, gs) v = if_lem (λ (c' : Core). Inv c'.revisions gs) c.saturated v v
step-Inv (closes n) (c, gs) v = forget_all-Inv c.revisions gs v
step-Inv (changes b m n t i s) (c, gs) v = v
