-- ===== src/Hub/Relay/Respond/Drain.antt =====
-- The rounds of the loop of `acceptRespond`.
use capri_hub.Common.{
  ℕ, zero, suc, ◌≤◌, ◌≡◌, refl, sym, ap, ◌∙◌, inl, inr, length, Option-cases, arith, subst,
}
use capri_hub.Common.Words.{IsU64, add64}
use capri_hub.Common.Assoc.{lookup, erase, length-erase, lookup_of_empty}
use capri_hub.Wire.Frame.{Frame, Json}
use capri_hub.Hub.Relay.{RelayCodec, RelayLimits, PendingReq}
use capri_hub.Hub.Relay.Respond.{Applied, waits, fails, answers, apply_chunk, unpark, apply_all}
use capri_hub.Hub.Relay.Respond.Stream.{
  clear, clear_applied, After, apply_chunk-After, apply_chunk-clear, then_apply, in_order,
}
use capri_hub.Hub.Relay.Respond.Advance.{
  IsStream, Parked, Advanced, unpark-Parked, next-Parked, ended-Advanced, stopped-Advanced,
  more-Advanced,
}

module _ (json : Json) (codec : RelayCodec) (limits : RelayLimits) where
  in_order_next :
      (fs : ℕ → Frame) (n : ℕ) (pr : PendingReq)
      → in_order json codec limits fs n ≡ waits (clear pr)
      → clear_applied (apply_chunk json codec limits pr (fs (suc n)))
        ≡ in_order json codec limits fs (suc n)
  unfolding in_order
  in_order_next fs n pr e =
      sym (apply_chunk-clear json codec limits pr (fs (suc n)))
      ∙ sym (ap (λ x. then_apply json codec limits x (fs (suc n))) e)

  -- The request after a round: the chunk `n + 1` was applied, and a frame may wait behind it.
  more_or_stop :
      (fs : ℕ → Frame) (fuel n : ℕ) (pr pr' : PendingReq)
      → clear_applied (waits pr') ≡ in_order json codec limits fs (suc n)
      → After pr (fs (suc n)) (waits pr')
      → apply_chunk json codec limits pr (fs (suc n)) ≡ waits pr'
      → IsStream fs
      → Parked fs (suc n) pr.parked
      → length pr.parked ≤ suc fuel
      → IsU64 (suc n)
      → ((q : PendingReq)
          → in_order json codec limits fs (suc n) ≡ waits (clear q)
          → Parked fs (suc (suc n)) q.parked
          → length q.parked ≤ fuel
          → IsU64 (suc (suc n))
          → Advanced json codec limits fs
              (suc n)
              q.parked
              (apply_all json codec limits fuel q (fs (suc (suc n)))))
      → Advanced json codec limits fs n pr.parked
          (apply_all json codec limits (suc fuel) pr (fs (suc n)))
  unfolding apply_all
  more_or_stop fs fuel n pr pr' same after e s p l w again =
      let at : pr'.next_chunk ≡ suc n = after.0 ∙ s (suc n) in
      elim (Option-cases (lookup (add64 pr'.next_chunk 1) pr'.parked)) [
        | inl gap ↦
            rw (apply_all, e, gap)
              (stopped-Advanced json codec limits fs n pr.parked pr' w same at after.1 p
                (ap (λ x. lookup (add64 x 1) pr'.parked) (sym at) ∙ gap))
        | inr (g, there) ↦
            let (next, word, same') =
              next-Parked fs (suc n) pr'.parked g (subst (Parked fs (suc n)) (sym after.1) p) w
                (ap (λ x. lookup (add64 x 1) pr'.parked) (sym at) ∙ there) in
            let q = unpark pr' g in
            let taken : q.parked ≡ erase (suc (suc n)) pr.parked =
              ap (λ x. erase (add64 x 1) pr'.parked) at
              ∙ ap (λ x. erase x pr'.parked) next
              ∙ ap (erase (suc (suc n))) after.1 in
            let left : suc (length (erase (suc (suc n)) pr.parked)) ≡ length pr.parked =
              length-erase (suc (suc n)) pr.parked g (
                ap (lookup (suc (suc n))) (sym after.1)
                ∙ ap (λ x. lookup x pr'.parked) (sym (ap (λ x. add64 x 1) at ∙ next))
                ∙ there) in
            let rest =
              again q (sym same)
                (subst (Parked fs (suc (suc n))) (sym taken) (unpark-Parked fs (suc n) pr.parked p))
                (omega (arith, ap length taken)) word in
            rw (apply_all, e, there)
              (more-Advanced json codec limits fs n pr.parked _ (
                subst
                  (λ x.
                    Advanced json codec limits fs (suc n) x (apply_all json codec limits fuel q g))
                  taken
                  (subst
                    (λ x.
                      Advanced json codec limits fs (suc n) q.parked
                        (apply_all json codec limits fuel q x))
                    (sym same') rest)))
      ]

  pub apply_all-Advanced :
      (fs : ℕ → Frame) (fuel n : ℕ) (pr : PendingReq)
      → IsStream fs
      → in_order json codec limits fs n ≡ waits (clear pr)
      → Parked fs (suc n) pr.parked
      → length pr.parked ≤ fuel
      → IsU64 (suc n)
      → Advanced json codec limits fs n pr.parked (apply_all json codec limits fuel pr (fs (suc n)))
  unfolding apply_all
  apply_all-Advanced fs zero n pr s e p l w =
      no_more _ refl (in_order_next fs n pr e) (apply_chunk-After json codec limits pr (fs (suc n)))
    where
      no_more :
          (out : Applied)
          → apply_chunk json codec limits pr (fs (suc n)) ≡ out
          → clear_applied out ≡ in_order json codec limits fs (suc n)
          → After pr (fs (suc n)) out
          → Advanced json codec limits fs n pr.parked out
      no_more (fails reason) o same after =
          ended-Advanced json codec limits fs n pr.parked _ w same (λ q h. cc)
      no_more (answers resp m) o same after =
          ended-Advanced json codec limits fs n pr.parked _ w same (λ q h. cc)
      no_more (waits pr') o same after =
          stopped-Advanced json codec limits fs n pr.parked pr' w same (after.0 ∙ s (suc n)) after.1
            p (lookup_of_empty _ pr'.parked (omega (arith, ap length after.1)))
  apply_all-Advanced fs (suc fuel) n pr s e p l w =
      round _ refl (in_order_next fs n pr e) (apply_chunk-After json codec limits pr (fs (suc n)))
        (λ q. apply_all-Advanced fs fuel (suc n) q s)
    where
      round :
          (out : Applied)
          → apply_chunk json codec limits pr (fs (suc n)) ≡ out
          → clear_applied out ≡ in_order json codec limits fs (suc n)
          → After pr (fs (suc n)) out
          → ((q : PendingReq)
              → in_order json codec limits fs (suc n) ≡ waits (clear q)
              → Parked fs (suc (suc n)) q.parked
              → length q.parked ≤ fuel
              → IsU64 (suc (suc n))
              → Advanced json codec limits fs
                  (suc n)
                  q.parked
                  (apply_all json codec limits fuel q (fs (suc (suc n)))))
          → Advanced json codec limits fs n pr.parked
              (apply_all json codec limits (suc fuel) pr (fs (suc n)))
      round (fails reason) o same after again =
          rw (apply_all, o) (ended-Advanced json codec limits fs n pr.parked _ w same (λ q h. cc))
      round (answers resp m) o same after again =
          rw (apply_all, o) (ended-Advanced json codec limits fs n pr.parked _ w same (λ q h. cc))
      round (waits pr') o same after again =
          more_or_stop fs fuel n pr pr' same after o s p l w again
