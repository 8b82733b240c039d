-- ===== src/Gossip/Prune/Sorted.antt =====
-- The loop over sorted pairs closes a prefix.
use Prim.Native.Nat.{max}
use peekd.Base.{
  ℕ, zero, suc, ◌+◌, ◌-◌, ◌≡◌, refl, ap, ◌∙◌, Bool, true, false, ◌||◌, List, [], ◌∷◌, map, Text,
  All, arith, ltb, if◌then◌else◌, Bool-cases, inl, inr, ltb→lt, ltb→le, ◌⊎◌,
}
use peekd.Gossip.Prune.{Scores, Snapshots, is_bad_peer, prune_loop, IsSorted}

abbrev pub take {ℓ} : {A : Type ℓ} → ℕ → List A → List A
take zero xs = []
take (suc n) [] = []
take (suc n) (x ∷ xs) = x ∷ take n xs

module _ (scores : Scores) (snapshots : Snapshots scores) where
  open scores use {Score, less, gossip_threshold, less_chain}

  abbrev pub is_low : Score → Bool
  is_low score = less score gossip_threshold

  -- How many of the pairs lie below the threshold.
  unfoldable pub bad_count : List (Text × Score) → ℕ
  bad_count [] = 0
  bad_count ((pid, score) ∷ pairs) =
      let rest = bad_count pairs in if is_low score then suc rest else rest

  -- The score of a pair is low exactly if its peer is bad.
  abbrev pub IsCurrentPair : Text × Score → Type 0
  IsCurrentPair pair = is_low pair.1 ≡ is_bad_peer scores snapshots pair.0

  abbrev pub IsCurrent : List (Text × Score) → Type 0
  IsCurrent = All IsCurrentPair

  none_bad :
      (score : Score) (pairs : List (Text × Score))
      → is_low score ≡ false
      → All (λ q. less q.1 score ≡ false) pairs
      → bad_count pairs ≡ 0
  unfolding bad_count
  none_bad score [] high above = refl
  none_bad score ((pid, s) ∷ pairs) high above =
      ground (arith, less_chain s score gossip_threshold, none_bad score pairs high above.1)

  -- The loop goes on past a pair exactly if more peers are to go.
  loop_continues :
      (total target i : ℕ) (pid : Text) (score : Score) (pairs : List (Text × Score))
      → IsSorted scores ((pid, score) ∷ pairs)
      → is_low score ≡ is_bad_peer scores snapshots pid
      → (((ltb (i + target) total || is_bad_peer scores snapshots pid) ≡ true)
          × (max (total - target - i) (bad_count ((pid, score) ∷ pairs))
              ≡ suc (max (total - target - (i + 1)) (bad_count pairs))))
        ⊎ (((ltb (i + target) total || is_bad_peer scores snapshots pid) ≡ false)
            × (max (total - target - i) (bad_count ((pid, score) ∷ pairs)) ≡ 0))
  unfolding bad_count
  loop_continues total target i pid score pairs sorted current =
      rw (← current) (elim (Bool-cases (is_low score)) [
        | inl low ↦ rw low (inl (ground arith, omega arith))
        | inr high ↦
            let none_left = none_bad score pairs high sorted.0 in
            rw (high, none_left)
              (elim (Bool-cases (ltb (i + target) total)) [
                | inl more ↦ inl (ground arith, omega (arith, ltb→lt (i + target) total more))
                | inr stop ↦ inr (ground arith, omega (arith, ltb→le (i + target) total stop))
              ])
      ])

  take-nil : (n : ℕ) → take {A = Text × Score} n [] ≡ []
  take-nil zero = refl
  take-nil (suc n) = refl

  prune_loop-take :
      (total target i : ℕ) (pairs : List (Text × Score))
      → IsSorted scores pairs
      → IsCurrent pairs
      → prune_loop scores snapshots total target i pairs
        ≡ map (λ pair. pair.0) (take (max (total - target - i) (bad_count pairs)) pairs)
  unfolding prune_loop
  prune_loop-take total target i [] sorted current = rw take-nil
  prune_loop-take total target i ((pid, score) ∷ pairs) sorted current =
      elim (loop_continues total target i pid score pairs sorted current.0) [
        | inl (go_on, n) ↦
            rw (n, go_on)
              (ap (◌∷◌ pid) (prune_loop-take total target (i + 1) pairs sorted.1 current.1))
        | inr (stop, n) ↦ rw (n, stop)
      ]

  -- From the start of the loop.
  pub prune_loop-start :
      (total target : ℕ) (pairs : List (Text × Score))
      → IsSorted scores pairs
      → IsCurrent pairs
      → prune_loop scores snapshots total target 0 pairs
        ≡ map (λ pair. pair.0) (take (max (total - target) (bad_count pairs)) pairs)
  prune_loop-start total target pairs sorted current =
      let zero_less : total - target - 0 ≡ total - target = omega arith in
      prune_loop-take total target 0 pairs sorted current
      ∙ ap (λ n. map (λ pair. pair.0) (take (max n (bad_count pairs)) pairs)) zero_less
