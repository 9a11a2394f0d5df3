-- ===== src/Service/Monad.antt =====
-- A method of the service: the world, and a result or what it throws. What was written before a
-- throw stays written. The operators stay shut, so that a proof follows the method's own steps.
use salesforce_expert_suppor.Prelude.{Bool, Option, none, some, [], ◌∷◌, ◌++◌, if◌then◌else◌}
use salesforce_expert_suppor.Dispatch.Store.{Store}
use salesforce_expert_suppor.Service.World.{World, Job}

-- The classes of shared/errors.ts that matching throws; `internal` is a plain `Error`, and
-- `out_of_fuel` stands for a loop that was cut short, which the code never does.
pub data Error : Type 0 where
  unauthenticated forbidden not_found conflict validation illegal_transition : Error
  internal out_of_fuel : Error

pub data Result (A : Type 0) : Type 0 where
  ok : A → Result A
  err : Error → Result A

abbrev pub Action : Type 0 → Type 0
Action A = World → Result A × World

module _ {A : Type 0} where
  unfoldable pub pure : A → Action A
  pure a w = (ok a, w)

  unfoldable pub raise : Error → Action A
  raise e w = (err e, w)

  unfoldable pub reads : (World → A) → Action A
  reads f w = (ok (f w), w)

  unfoldable pub on_store : (Store → A × Store) → Action A
  on_store f w = let (a, s) = f w.store in (ok a, record w { store = s })

  unfoldable pub branch : Bool → Action A → Action A → Action A
  branch c m k w = if c then m w else k w

abbrev pub and_then : {A B : Type 0} → Result A → World → (A → Action B) → Result B × World
and_then (ok a) w f = f a w
and_then (err e) w f = (err e, w)

infixl 5 ◌>>=◌ ◌>>◌
unfoldable pub ◌>>=◌ : {A B : Type 0} → Action A → (A → Action B) → Action B
◌>>=◌ m f w = and_then (m w).0 (m w).1 f

abbrev pub ◌>>◌ : {A B : Type 0} → Action A → Action B → Action B
m >> k = m >>= λ _. k

unfoldable pub on_option : {A B : Type 0} → Option A → Action B → (A → Action B) → Action B
on_option none m f = m
on_option (some a) m f = f a

unfoldable pub enqueue : Job → Action (Unit {0})
enqueue job w = (ok tt, record w { jobs = w.jobs ++ (job ∷ []) })

-- `if (c) throw e`
unfoldable pub raise_if : Bool → Error → Action (Unit {0})
raise_if c e w = (if c then err e else ok tt, w)

-- `x ?? throw e`
unfoldable pub or_raise : {A : Type 0} → Option A → Error → Action A
or_raise none e w = (err e, w)
or_raise (some a) e w = (ok a, w)
