-- ===== src/Examples/Pools.antt =====
-- The pool at concrete inputs.
use abstraction_identity.Base.{ℕ, ◌≡◌, true, All, List, [], ◌∷◌, arith}
use abstraction_identity.Listen.Pool.{Pooled, is_fresh, put}
use abstraction_identity.Listen.Pool.Bounds.{IsPool, PutResult, put_lem}

abbrev entry : ℕ → Pooled
entry n = record { conn = n; since = n }

-- The first has waited ten seconds and more, the second has not.
abbrev two : List Pooled
two = entry 1 ∷ entry 9_000_000_000 ∷ []

abbrev put_at : ℕ
put_at = 11_000_000_000

put_lem_example :
    let r = put 5 put_at two in
    IsPool put_at r.0
    × PutResult
        (All (λ q. is_fresh put_at q ≡ true))
        put_at
        (record { conn = 5; since = put_at })
        two
        r
put_lem_example =
    put_lem 5 put_at two (record { few = omega arith; in_order = omega arith; past = omega arith })
