-- ===== src/Engine/Revoked.antt =====
-- A revoked engine: nothing but `Reset` brings it back.
use zonal_zero_trust_auth.Base.{List, [], ◌∷◌}
use zonal_zero_trust_auth.Engine.Transitions.{Call, requests, responds, revokes, resets}

-- No call of the history is a `Reset`.
abbrev pub NoReset : List Call → Type 0
NoReset [] = Unit
NoReset (requests request ∷ cs) = NoReset cs
NoReset (responds response token ∷ cs) = NoReset cs
NoReset (revokes ∷ cs) = NoReset cs
NoReset (resets ∷ cs) = ⊥
