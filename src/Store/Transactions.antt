-- ===== src/Store/Transactions.antt =====
-- How a transaction that succeeds, or one that fails, has ended.
use platform_mihomo_service.Base.{◌≡◌, sym, ap, subst}
use platform_mihomo_service.Outcome.{Error, Result, ok, err}
use platform_mihomo_service.Store.Laws.{View, Ended, committed, rolled_back}

pub committed_lem :
    {S A : Type 0} (view : S → View) (s s' : S) (body : Result A × S) (a : A)
    → Ended view s body (ok a, s')
    → (u : S) × (body ≡ (ok a, u)) × (view s' ≡ view u)
committed_lem view s s' body a (committed b u t e same v) =
    (u, cc, subst (λ x. view x ≡ view u) (ap (λ x. x.1) (sym same)) v)
committed_lem view s s' body a (rolled_back x t same v) = absurd cc

pub rolled_back_lem :
    {S A : Type 0} (view : S → View) (s s' : S) (body : Result A × S) (e : Error)
    → Ended view s body (err e, s')
    → (view s').tables ≡ (view s).tables
rolled_back_lem view s s' body e (committed b u t x same v) = absurd cc
rolled_back_lem view s s' body e (rolled_back x t same v) =
    subst (λ z. (view z).tables ≡ (view s).tables) (ap (λ x. x.1) (sym same)) v
