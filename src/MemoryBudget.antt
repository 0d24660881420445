-- ===== src/MemoryBudget.antt =====
-- src/cache/memoryBudget.ts: the byte ledger that all cache namespaces of a process share.
-- The limits are the values of `Math.floor(parseLimit(...))`, the memory signals are read as the tests
-- that `sample` makes of them, and the two fractions that it takes of a number are a parameter, since
-- the source computes them in floating point. A client is a parameter too: what its `evictOne` does
-- to the ledger is a list of calls of `tryReserve` and `release`.
pub mod Ledger
pub mod Bounds
mod Tests
use lazy_layers.Prelude.{
  ℕ, zero, suc, ◌+◌, ◌-◌, ◌*◌, ◌%◌, ◌≡◌, ◌≤◌, Bool, true, false, Option, none, some, List, [], ◌∷◌,
  ltb, leb, ◌==◌, ◌&&◌, ◌||◌, not, if◌then◌else◌, get_or, min, max, sum_by, Text, text_eq, Number,
  natural, negative, not_integer,
}

-- `Map<string, number>`: the bytes of each category, in the order of the first reservation.
abbrev pub Categories : Type 0
Categories = List (Text × ℕ)

-- `get(category) ?? 0`
unfoldable pub lookup : Text → Categories → ℕ
lookup k [] = 0
lookup k ((c, n) ∷ m) = let rest = lookup k m in if text_eq c k then n else rest

unfoldable pub put : Text → ℕ → Categories → Categories
put k v [] = (k, v) ∷ []
put k v ((c, n) ∷ m) = let rest = put k v m in if text_eq c k then (c, v) ∷ m else (c, n) ∷ rest

pub data Pressure : Type 0 where
  normal pressure critical : Pressure

pub record Budget : Type 0 where
  pub hard_cap : ℕ
  pub min_memory : Option ℕ
  pub target : ℕ
  pub used : ℕ
  pub categories : Categories
  pub cursor : ℕ
  pub state : Pressure
  pub pressure_at : Option ℕ
  pub recovery_at : Option ℕ
  pub evictions : ℕ
  pub admissions : ℕ
  pub failed_admissions : ℕ

-- The tests of the limits.
abbrev pub is_floor : ℕ → Option Number → Bool
is_floor cap none = true
is_floor cap (some (natural m)) = ltb 0 m && leb m cap
is_floor cap (some (negative m)) = false
is_floor cap (some not_integer) = false

abbrev pub floor_of : Option Number → Option ℕ
floor_of none = none
floor_of (some (natural m)) = some m
floor_of (some (negative m)) = none
floor_of (some not_integer) = none

abbrev pub fresh_budget : ℕ → Option ℕ → Budget
fresh_budget cap least = record {
  hard_cap = cap;
  min_memory = least;
  target = cap;
  used = 0;
  categories = [];
  cursor = 0;
  state = normal;
  pressure_at = none;
  recovery_at = none;
  evictions = 0;
  admissions = 0;
  failed_admissions = 0;
}

-- The constructor; `none` is its RangeError.
unfoldable pub construct : Number → Option Number → Option Budget
construct (natural cap) least =
    if ltb 0 cap && is_floor cap least then some (fresh_budget cap (floor_of least)) else none
construct (negative n) least = none
construct not_integer least = none

unfoldable pub try_reserve : Number → Text → Budget → Budget × Bool
try_reserve (negative n) category b = (b, false)
try_reserve not_integer category b = (b, false)
try_reserve (natural n) category b =
    if ltb b.target (b.used + n)
    then (record b { failed_admissions = b.failed_admissions + 1 }, false)
    else (
      record b {
        used = b.used + n;
        categories = put category (lookup category b.categories + n) b.categories;
        admissions = b.admissions + 1;
      },
      true,
    )

abbrev pub take_back : ℕ → Text → Budget → Budget
take_back amount category b = if amount == 0 then b else record b {
  categories = put category (lookup category b.categories - amount) b.categories;
  used = b.used - amount;
}

unfoldable pub release : Number → Text → Budget → Budget
release (negative n) category b = b
release not_integer category b = b
release (natural n) category b =
    take_back (min (min n (lookup category b.categories)) b.used) category b

unfoldable pub permits_promotion : Number → Budget → Bool
permits_promotion (natural n) b = elim b.state [ normal ↦ leb (b.used + n) b.target | _ ↦ false ]
permits_promotion (negative n) b = false
permits_promotion not_integer b = false

-- What a client does to the ledger.
pub data Op : Type 0 where
  reserves releases : Number → Text → Op

unfoldable pub perform : Op → Budget → Budget
perform (reserves n category) b = (try_reserve n category b).0
perform (releases n category) b = release n category b

unfoldable pub perform_all : List Op → Budget → Budget
perform_all [] b = b
perform_all (op ∷ ops) b = perform_all ops (perform op b)

-- The clients: how many are registered, and what the `evictOne` of the client at an index does.
-- Its result is `none` when it throws.
pub record Clients : Type 1 where
  pub World : Type 0
  pub count : World → ℕ
  pub evict_one : ℕ → World → World × List Op × Option Bool

-- `Math.floor(n * 0.7)` and `Math.floor(n * 0.05)`
pub record Fractions : Type 0 where
  pub seven_tenths : ℕ → ℕ
  pub twentieth : ℕ → ℕ

-- ratio < 0.05, ratio < 0.15, psiSomeAvg10 >= 50 and psiSomeAvg10 >= 10, each false on a signal that
-- is missing.
pub record Signals : Type 0 where
  pub low : Bool
  pub scarce : Bool
  pub stalled : Bool
  pub slowed : Bool

pub record Windows : Type 0 where
  pub pressure_ms : Option ℕ
  pub recovery_ms : Option ℕ

abbrev pub lower_to : ℕ → Budget → ℕ
lower_to n b = max (get_or b.min_memory 1) n

abbrev pub is_critical : Signals → Budget → Bool
is_critical s b = ltb b.hard_cap b.used || s.low || s.stalled

abbrev pub is_pressured : Signals → Budget → Bool
is_pressured s b = ltb b.target b.used || s.scarce || s.slowed

abbrev pub under_pressure : Fractions → Windows → ℕ → Budget → Budget
under_pressure f w now b =
    let since = get_or b.pressure_at now in
    let b' : Budget = record b { pressure_at = some since; recovery_at = none } in
    if leb (since + get_or w.pressure_ms 5000) now
    then record b' { state = pressure; target = lower_to (f.seven_tenths b.hard_cap) b }
    else b'

abbrev pub recovering : Fractions → Windows → ℕ → Budget → Budget
recovering f w now b =
    let since = get_or b.recovery_at now in
    let b' : Budget = record b { recovery_at = some since; pressure_at = none } in
    if leb (since + get_or w.recovery_ms 30000) now
    then record b' {
      state = normal;
      target = min b.hard_cap (b.target + max 1 (f.twentieth b.hard_cap));
    }
    else b'

-- The three branches of `sample`.
unfoldable pub adjust : Fractions → Windows → ℕ → Signals → Budget → Budget
adjust f w now s b =
    if is_critical s b
    then record b {
      state = critical;
      target = lower_to (f.seven_tenths b.target) b;
      pressure_at = some now;
      recovery_at = none;
    }
    else if is_pressured s b
    then under_pressure f w now b
    else recovering f w now b

module _ (c : Clients) where
  abbrev pub count_eviction : Option Bool → Budget → Budget
  count_eviction (some true) b = record b { evictions = b.evictions + 1 }
  count_eviction (some false) b = b
  count_eviction none b = b

  -- The body of the loop of `evictBounded`.
  abbrev pub evict_next : c.World × Budget → c.World × Budget
  evict_next (w, b) =
      let b' : Budget = record b { cursor = b.cursor + 1 } in
      let (w', ops, evicted) = c.evict_one (b.cursor % c.count w) w in
      (w', count_eviction evicted (perform_all ops b'))

  unfoldable pub evict_bounded : ℕ → c.World × Budget → c.World × Budget
  evict_bounded zero s = s
  evict_bounded (suc n) (w, b) =
      let rest = evict_bounded n (evict_next (w, b)) in
      if not (c.count w == 0) && ltb b.target b.used then rest else (w, b)

  unfoldable pub sample : Fractions → Windows → ℕ → Signals → c.World × Budget → c.World × Budget
  sample f windows now s (w, b) =
      let b' = adjust f windows now s b in
      let evicted = evict_bounded 32 (w, b') in if ltb b'.target b'.used then evicted else (w, b')
