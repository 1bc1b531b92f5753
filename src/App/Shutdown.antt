-- ===== src/App/Shutdown.antt =====
-- pkg/app/shutdown.go: handlers that run once at shutdown, by priority. sort.Slice promises an
-- ordered permutation for its less function and no more (it is not stable), so the sort is an
-- argument with that promise, and the less function that `sortHandlers` gives it is modelled.
use dgou_framework.Base.{
  ℕ, ◌≡◌, ◌∙◌, refl, ap, Bool, true, false, List, [], ◌∷◌, ◌++◌, arith, if◌then◌else◌, Str, map,
  All,
}
use dgou_framework.Base.Int.{ℤ, pos, ◌≤ℤ◌, ltb_ℤ}
use mathlib.Core.List.{Perm}

pub record ShutdownEntry : Type 0 where
  pub handler : ℕ  -- which function it is
  pub priority : ℤ
  pub name : Str

pub record ShutdownHandler : Type 0 where
  pub handlers : List ShutdownEntry
  pub executed : Bool

unfoldable pub new_shutdown_handler : ShutdownHandler
new_shutdown_handler = record { handlers = []; executed = false }

-- `Register`: nothing after the handlers have been run
unfoldable pub register : ShutdownHandler → ShutdownEntry → ShutdownHandler
register s e = if s.executed then s else record s { handlers = s.handlers ++ e ∷ [] }

abbrev pub priority_normal : ℤ
priority_normal = pos 2

unfoldable pub register_with_default : ShutdownHandler → ℕ → Str → ShutdownHandler
unfolding register
register_with_default s handler name =
    register s (record { handler = handler; priority = priority_normal; name = name })

-- How the call of a handler ends, if it does.
pub data Ending : Type 0 where
  returned panicked hangs : Ending

-- what follows a handler in the loop
abbrev pub after_handler : Ending → List (ShutdownEntry × Ending) → List (ShutdownEntry × Ending)
after_handler returned rest = rest
after_handler panicked rest = rest
after_handler hangs rest = []

-- `executeAll`: each handler is called, and a panic in it is recovered, so the loop goes on; a
-- handler that never returns is the last.
unfoldable pub execute_all : (ℕ → Ending) → List ShutdownEntry → List (ShutdownEntry × Ending)
execute_all behaviour [] = []
execute_all behaviour (e ∷ es) =
    (e, behaviour e.handler) ∷ after_handler (behaviour e.handler) (execute_all behaviour es)

-- The less function of `sortHandlers`.
unfoldable pub by_priority : ShutdownEntry → ShutdownEntry → Bool
by_priority a b = ltb_ℤ a.priority b.priority

abbrev pub IsOrdered : List ShutdownEntry → Type 0
IsOrdered [] = Unit
IsOrdered (e ∷ es) = All (λ x. e.priority ≤ℤ x.priority) es × IsOrdered es

-- What package sort asks of a less function: a strict order in which being not after another is
-- transitive.
pub record IsWeakOrder (less : ShutdownEntry → ShutdownEntry → Bool) : Type 0 where
  pub asymmetric : (a b : ShutdownEntry) → less a b ≡ true → less b a ≡ false
  pub negative : (a b c : ShutdownEntry) → less a b ≡ false → less b c ≡ false → less a c ≡ false

-- No later entry is less than an earlier one.
abbrev pub IsSortedBy : (ShutdownEntry → ShutdownEntry → Bool) → List ShutdownEntry → Type 0
IsSortedBy less [] = Unit
IsSortedBy less (e ∷ es) = All (λ x. less x e ≡ false) es × IsSortedBy less es

-- What package sort promises of sort.Slice.
pub record Sort : Type 0 where
  pub sort : (ShutdownEntry → ShutdownEntry → Bool) → List ShutdownEntry → List ShutdownEntry
  pub sort-perm :
      (less : ShutdownEntry → ShutdownEntry → Bool) (l : List ShutdownEntry) → Perm (sort less l) l
  pub sort-IsSortedBy :
      (less : ShutdownEntry → ShutdownEntry → Bool) (l : List ShutdownEntry)
      → IsWeakOrder less
      → IsSortedBy less (sort less l)

by_priority-IsWeakOrder : IsWeakOrder by_priority
unfolding by_priority
by_priority-IsWeakOrder = record {
  asymmetric = λ a b h. ground arith;
  negative = λ a b c h k. ground arith;
}

not_less-All :
    (e : ShutdownEntry) (es : List ShutdownEntry)
    → All (λ x. by_priority x e ≡ false) es
    → All (λ x. e.priority ≤ℤ x.priority) es
unfolding by_priority
not_less-All e [] v = tt
not_less-All e (x ∷ es) v = (ground (arith, v.0), not_less-All e es v.1)

by_priority-IsOrdered : (es : List ShutdownEntry) → IsSortedBy by_priority es → IsOrdered es
by_priority-IsOrdered [] v = tt
by_priority-IsOrdered (e ∷ es) v = (not_less-All e es v.0, by_priority-IsOrdered es v.1)

after_handler_ended :
    (e : Ending) (rest : List (ShutdownEntry × Ending))
    → ¬ (e ≡ hangs)
    → after_handler e rest ≡ rest
after_handler_ended returned rest h = refl
after_handler_ended panicked rest h = refl
after_handler_ended hangs rest h = absurd (h refl)

called-execute_all :
    (behaviour : ℕ → Ending) (es : List ShutdownEntry)
    → ((n : ℕ) → ¬ (behaviour n ≡ hangs))
    → map (λ c. c.0) (execute_all behaviour es) ≡ es
unfolding execute_all
called-execute_all behaviour [] ends = refl
called-execute_all behaviour (e ∷ es) ends =
    ap (λ l. e ∷ l)
      (ap (map (λ c. c.0)) (after_handler_ended (behaviour e.handler) _ (ends e.handler))
        ∙ called-execute_all behaviour es ends)

module _ (s : Sort) where
  -- `sortHandlers`
  unfoldable pub sort_handlers : ShutdownHandler → ShutdownHandler
  unfolding by_priority
  sort_handlers h = record h { handlers = s.sort by_priority h.handlers }

  -- `Execute`: the new state, and the calls in their order. The timeout only ends the wait for
  -- them; the goroutine that makes them goes on.
  unfoldable pub execute :
      (ℕ → Ending) → ShutdownHandler → ShutdownHandler × List (ShutdownEntry × Ending)
  unfolding execute_all sort_handlers
  execute behaviour h =
      if h.executed
      then (h, [])
      else let sorted = sort_handlers (record h { executed = true }) in
        (sorted, execute_all behaviour sorted.handlers)

  -- Where no handler runs forever, the goroutine of the first `Execute`, which outlives the timeout,
  -- calls every registered handler exactly once, by ascending priority, also when some of them panic.
  pub execute-calls :
      (behaviour : ℕ → Ending) (h : ShutdownHandler)
      → ((n : ℕ) → ¬ (behaviour n ≡ hangs))
      → h.executed ≡ false
      → let called = map (λ c. c.0) (execute behaviour h).1 in
        Perm called h.handlers × IsOrdered called
  unfolding execute sort_handlers
  execute-calls behaviour h ends first = rw first (
      rw (called-execute_all behaviour (s.sort by_priority h.handlers) ends) (
        s.sort-perm by_priority h.handlers,
        by_priority-IsOrdered (s.sort by_priority h.handlers)
            (s.sort-IsSortedBy by_priority h.handlers by_priority-IsWeakOrder),
      ))

  -- After an Execute, another one calls nothing and changes nothing, and a Register changes
  -- nothing.
  pub execute_once :
      (behaviour : ℕ → Ending) (h : ShutdownHandler) (e : ShutdownEntry)
      → let h' = (execute behaviour h).0 in (execute behaviour h' ≡ (h', [])) × (register h' e ≡ h')
  unfolding execute register sort_handlers
  execute_once behaviour h e = ground arith
