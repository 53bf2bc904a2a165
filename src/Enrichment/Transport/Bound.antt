-- ===== src/Enrichment/Transport/Bound.antt =====
-- The bound of a provider's body in src/enrichment.rs.
use rust_enrich.Common.{
  ℕ, ◌+◌, ◌-◌, ◌≤◌, ◌<◌, ◌⊎◌, inl, inr, ◌≡◌, List, [], ◌∷◌, ◌++◌, map, ok, ltb, leb, if◌then◌else◌,
  length, length-append, arith, ap, ◌∙◌,
}
use rust_enrich.Domain.Errors.{response_too_large}
use rust_enrich.Serialization.{total}
use rust_enrich.Enrichment.Transport.{Body, whole, failed, collect}
use mathlib.Core.List.{append_assoc, append-nil}

abbrev pub concat : List (List ℕ) → List ℕ
concat [] = []
concat (part ∷ parts) = part ++ concat parts

leb-cases : (a b : ℕ) → (a ≤ b) ⊎ (b < a)
leb-cases a b = omega arith

collect_step :
    (limit : ℕ) (rest : Body) (body part : List ℕ) (more : ℕ) (later : List ℕ)
    → length body ≤ limit
    → (length (body ++ part) ≤ limit
        → rest ≡ (
            if leb (length (body ++ part) + more) limit
            then whole ((body ++ part) ++ later)
            else failed response_too_large))
    → (if ltb (limit - length body) (length part) then failed response_too_large else rest) ≡ (
        if leb (length body + (length part + more)) limit
        then whole (body ++ (part ++ later))
        else failed response_too_large)
collect_step limit rest body part more later h e = elim (leb-cases (length (body ++ part)) limit) [
  | inl fits ↦ ground (arith, e fits, length-append body part, append_assoc body part later)
  | inr over ↦ ground (arith, over, length-append body part)
]

collect-append :
    (limit : ℕ) (parts : List (List ℕ)) (body : List ℕ)
    → length body ≤ limit
    → collect limit (map (λ p. ok p) parts) body ≡ (
        if leb (length body + total parts) limit
        then whole (body ++ concat parts)
        else failed response_too_large)
unfolding collect
collect-append limit [] body h = ground (arith, append-nil body)
collect-append limit (part ∷ parts) body h =
    collect_step limit (collect limit (map (λ p. ok p) parts) (body ++ part)) body part
      (total parts) (concat parts) h (collect-append limit parts (body ++ part))

-- A body that arrives without an error is taken whole, its chunks in their order, exactly if together they are within the
-- limit; else the response is too large.
pub collect_lem :
    (limit : ℕ) (parts : List (List ℕ))
    → collect limit (map (λ p. ok p) parts) []
      ≡ (if leb (total parts) limit then whole (concat parts) else failed response_too_large)
collect_lem limit parts =
    collect-append limit parts [] (omega arith)
    ∙ ap (λ n. if leb n limit then whole (concat parts) else failed response_too_large)
        (omega arith)
