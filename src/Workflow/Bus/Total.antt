-- ===== src/Workflow/Bus/Total.antt =====
-- The bus never throws.
use fun_makers_system.Base.{◌≡◌, refl, Bool, true, false, List, [], ◌∷◌, arith}
use fun_makers_system.Data.Workflow.{WorkflowEvent}
use fun_makers_system.Effects.{World, Action, ok, ◌>>◌}
use fun_makers_system.Workflow.Bus.{
  Handler, Subscription, call_if, dispatch, dispatch_all, same_name,
}

-- An action that returns.
abbrev pub Returns : Action (Unit {0}) → Type 0
Returns m = (w : World) → (m w).0 ≡ ok tt

then-Returns : (m k : Action (Unit {0})) → Returns m → Returns k → Returns (m >> k)
then-Returns m k hm hk w = ground (arith, hm w, hk (m w).1)

call_if-Returns : (b : Bool) (f : Handler) (e : WorkflowEvent) → Returns (call_if b f e)
call_if-Returns true f e w = ground arith
call_if-Returns false f e w = refl

dispatch-Returns : (bus : List Subscription) (e : WorkflowEvent) → Returns (dispatch bus e)
unfolding dispatch
dispatch-Returns [] e = λ w. refl
dispatch-Returns (s ∷ bus) e =
    then-Returns (call_if (same_name s.event e.name) s.handler e) (dispatch bus e)
      (call_if-Returns (same_name s.event e.name) s.handler e) (dispatch-Returns bus e)

-- The delivery of any events to any handlers returns, whatever the handlers throw.
pub dispatch_all_returns :
    (bus : List Subscription) (es : List WorkflowEvent) (w : World)
    → (dispatch_all bus es w).0 ≡ ok tt
unfolding dispatch_all
dispatch_all_returns bus [] = λ w. refl
dispatch_all_returns bus (e ∷ es) =
    then-Returns (dispatch bus e) (dispatch_all bus es) (dispatch-Returns bus e)
      (dispatch_all_returns bus es)
