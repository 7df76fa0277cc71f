-- ===== src/Loader/Checks/Cyclic.antt =====
-- vm/js/loader.js: what the check for cyclic data finds out about a chain of quads.
use u_fork.Prelude.{
  ℕ, zero, suc, ◌+◌, ◌<◌, ◌≡◌, ◌≢◌, ◌↔◌, refl, sym, ap, subst, ◌∙◌, Bool, true, false, ◌||◌, ◌==◌,
  ==_iff, Bool-cases, List, [], ◌∷◌, length, Option, none, some, ◌⊎◌, inl, inr, arith,
}
use u_fork.Prelude.Members.{Among, here, there, IsDistinct, none_of, one_more, length-IsDistinct}
use u_fork.Ufork.Raw.{is_ptr}
use u_fork.Ufork.Memory.{Quad}
use u_fork.Loader.Actions.{ok, err, CyclicDataCheck, Link, cyclic, out_of_fuel}
use u_fork.Loader.Checks.{
  Reads, Checked, seen_before, follow, along, check_chain, check_cyclic_data,
}

module _ (reads : Reads) (t : ℕ) (k_field : Link) where
  -- A chain of `n` quads of type `t` that ends with what is no such quad.
  pub data Ends : ℕ → ℕ → Type 0 where
    ends_outside : {raw : ℕ} → is_ptr raw ≡ false → Ends raw 0
    ends_at :
        {raw : ℕ} (found : Quad)
        → is_ptr raw ≡ true
        → reads raw ≡ some found
        → (found.t == t) ≡ false
        → Ends raw 0
    goes :
        {raw : ℕ} {n : ℕ} (found : Quad)
        → is_ptr raw ≡ true
        → reads raw ≡ some found
        → (found.t == t) ≡ true
        → Ends (follow k_field found) n
        → Ends raw (suc n)

along_same :
    (t : ℕ) (k_field : Link) (next : ℕ → Checked) (found : Quad)
    → (found.t == t) ≡ true
    → along t k_field next (some found) ≡ next (follow k_field found)
along_same t k_field next found e =
    ap (λ b. elim b [ true ↦ next (follow k_field found) | false ↦ ok tt ]) e

along_other :
    (t : ℕ) (k_field : Link) (next : ℕ → Checked) (found : Quad)
    → (found.t == t) ≡ false
    → along t k_field next (some found) ≡ ok tt
along_other t k_field next found e =
    ap (λ b. elim b [ true ↦ next (follow k_field found) | false ↦ ok tt ]) e

-- The steps of a chain, of which each is one case of its head.
module _ (reads : Reads) (t : ℕ) (k_field : Link) where
  same_found : {raw : ℕ} {a b : Quad} → reads raw ≡ some a → reads raw ≡ some b → a ≡ b
  same_found h h' = cc (h, h')

  Ends-unique : {raw m n : ℕ} → Ends reads t k_field raw m → Ends reads t k_field raw n → m ≡ n
  Ends-unique (ends_outside h) (ends_outside h') = refl
  Ends-unique (ends_outside h) (ends_at _ h' _ _) = refl
  Ends-unique (ends_outside h) (goes _ h' _ _ _) = absurd (cc (h, h'))
  Ends-unique (ends_at _ h _ _) (ends_outside h') = refl
  Ends-unique (ends_at _ _ _ _) (ends_at _ _ _ _) = refl
  Ends-unique (ends_at found h r e) (goes found' h' r' e' _) = absurd (cc (r, r', e, e'))
  Ends-unique (goes _ h _ _ _) (ends_outside h') = absurd (cc (h, h'))
  Ends-unique (goes found h r e _) (ends_at found' h' r' e') = absurd (cc (r, r', e, e'))
  Ends-unique {n = suc n} (goes found h r e rest) (goes found' h' r' e' rest') = ap suc (
      Ends-unique rest
        (subst (λ q. Ends reads t k_field (follow k_field q) n) (same_found r' r) rest'))

  -- The pointers seen before are of longer chains.
  abbrev Behind : ℕ → List ℕ → Type 0
  Behind n seen = (raw : ℕ) → Among raw seen → (m : ℕ) × Ends reads t k_field raw m × n < m

  seen_before-Among : (raw : ℕ) (seen : List ℕ) → seen_before raw seen ≡ true → Among raw seen
  unfolding seen_before
  seen_before-Among raw [] h = absurd (cc h)
  seen_before-Among raw (other ∷ seen) h = elim (Bool-cases (other == raw)) [
    | inl e ↦ subst (λ r. Among r (other ∷ seen)) ((==_iff other raw).0 e) here
    | inr e ↦ there (seen_before-Among raw seen (sym (ap (λ b. b || seen_before raw seen) e) ∙ h))
  ]

  not_seen :
      (raw n : ℕ) (seen : List ℕ)
      → Ends reads t k_field raw n
      → Behind n seen
      → seen_before raw seen ≡ false
  not_seen raw n seen ends behind = elim (Bool-cases (seen_before raw seen)) [
    | inr e ↦ e
    | inl e ↦
        let (m, other, more) = behind raw (seen_before-Among raw seen e) in
        absurd (omega (arith, more, Ends-unique other ends))
  ]

  Behind-cons :
      (raw n : ℕ) (seen : List ℕ)
      → Ends reads t k_field raw (suc n)
      → Behind (suc n) seen
      → Behind n (raw ∷ seen)
  Behind-cons raw n seen ends behind _ here = (suc n, ends, omega arith)
  Behind-cons raw n seen ends behind other (there among) =
      let (m, longer, more) = behind other among in (m, longer, omega (arith, more))

  chain_passes :
      (fuel : ℕ) (raw n : ℕ) (seen : List ℕ)
      → Ends reads t k_field raw n
      → Behind n seen
      → (check_chain fuel reads t k_field seen raw ≡ ok tt)
        ⊎ (check_chain fuel reads t k_field seen raw ≡ err out_of_fuel)
  unfolding check_chain
  chain_passes zero raw n seen ends behind = inr refl
  chain_passes (suc fuel) raw n seen (ends_outside h) behind = inl (rw h refl)
  chain_passes (suc fuel) raw n seen (ends_at found h r e) behind = inl (
      rw (h, not_seen raw 0 seen (ends_at found h r e) behind, r)
        (along_other t k_field (check_chain fuel reads t k_field (raw ∷ seen)) found e))
  chain_passes (suc fuel) raw (suc n) seen (goes found h r e rest) behind =
      rw
        (
          h,
          not_seen raw (suc n) seen (goes found h r e rest) behind,
          r,
          along_same t k_field (check_chain fuel reads t k_field (raw ∷ seen)) found e,
        )
        (chain_passes fuel (follow k_field found) n (raw ∷ seen) rest
          (Behind-cons raw n seen (goes found h r e rest) behind))

  check_chain_outside :
      (fuel raw : ℕ) (seen : List ℕ)
      → is_ptr raw ≡ false
      → check_chain (suc fuel) reads t k_field seen raw ≡ ok tt
  unfolding check_chain
  check_chain_outside fuel raw seen outside = rw outside refl

  check_chain_again :
      (fuel raw : ℕ) (seen : List ℕ)
      → is_ptr raw ≡ true
      → seen_before raw seen ≡ true
      → check_chain (suc fuel) reads t k_field seen raw ≡ err cyclic
  unfolding check_chain
  check_chain_again fuel raw seen inside again = rw (inside, again) refl

  check_chain_new :
      (fuel raw : ℕ) (seen : List ℕ)
      → is_ptr raw ≡ true
      → seen_before raw seen ≡ false
      → check_chain (suc fuel) reads t k_field seen raw
        ≡ along t k_field (check_chain fuel reads t k_field (raw ∷ seen)) (reads raw)
  unfolding check_chain
  check_chain_new fuel raw seen inside new = rw (inside, new) refl

  seen_before-here : (raw : ℕ) (seen : List ℕ) → Among raw seen → seen_before raw seen ≡ true
  unfolding seen_before
  seen_before-here raw [] among = elim among [ ]
  seen_before-here raw (_ ∷ seen) here = rw ((==_iff raw raw).1 refl) refl
  seen_before-here raw (other ∷ seen) (there among) =
      rw (seen_before-here raw seen among) (either (other == raw))
    where
      either : (b : Bool) → (b || true) ≡ true
      either true = refl
      either false = refl

  chain-Ends :
      (fuel : ℕ) (raw : ℕ) (seen : List ℕ)
      → check_chain fuel reads t k_field seen raw ≡ ok tt
      → (n : ℕ) × Ends reads t k_field raw n
  unfolding check_chain
  chain-Ends zero raw seen h = absurd (cc h)
  chain-Ends (suc fuel) raw seen h = elim (Bool-cases (is_ptr raw)) [
    | inr outside ↦ (0, ends_outside outside)
    | inl inside ↦ elim (Bool-cases (seen_before raw seen)) [
      | inl again ↦ absurd (cc (h, check_chain_again fuel raw seen inside again))
      | inr new ↦
          from (reads raw) refl inside (λ next. chain-Ends fuel next (raw ∷ seen))
            (sym (check_chain_new fuel raw seen inside new) ∙ h)
    ]
  ]
    where
      from :
          (found : Option Quad)
          → reads raw ≡ found
          → is_ptr raw ≡ true
          → ((next : ℕ)
              → check_chain fuel reads t k_field (raw ∷ seen) next ≡ ok tt
              → (n : ℕ) × Ends reads t k_field next n)
          → along t k_field (check_chain fuel reads t k_field (raw ∷ seen)) found ≡ ok tt
          → (n : ℕ) × Ends reads t k_field raw n
      from none r inside later h = absurd (cc h)
      from (some found) r inside later h = elim (Bool-cases (found.t == t)) [
        | inr other ↦ (0, ends_at found inside r other)
        | inl same ↦
            let next =
              along_same t k_field (check_chain fuel reads t k_field (raw ∷ seen)) found same in
            let (n, rest) = later (follow k_field found) (sym next ∙ h) in
            (suc n, goes found inside r same rest)
      ]

  -- Reads find quads only at the pointers of a list.
  abbrev pub Within : List ℕ → Type 0
  Within ptrs = (raw : ℕ) (found : Quad) → reads raw ≡ some found → Among raw ptrs

  chain_in_fuel :
      (ptrs : List ℕ) (fuel : ℕ) (raw : ℕ) (seen : List ℕ)
      → Within ptrs
      → IsDistinct seen
      → ((other : ℕ) → Among other seen → Among other ptrs)
      → length ptrs < fuel + length seen
      → check_chain fuel reads t k_field seen raw ≢ err out_of_fuel
  unfolding check_chain
  chain_in_fuel ptrs zero raw seen within distinct all more h =
      absurd (omega (arith, length-IsDistinct seen ptrs distinct all))
  chain_in_fuel ptrs (suc fuel) raw seen within distinct all more h =
      elim (Bool-cases (is_ptr raw)) [
        | inr outside ↦ absurd (cc (h, check_chain_outside fuel raw seen outside))
        | inl inside ↦ elim (Bool-cases (seen_before raw seen)) [
          | inl again ↦ absurd (cc (h, check_chain_again fuel raw seen inside again))
          | inr new ↦
              from (reads raw) refl new
                (λ next among.
                  chain_in_fuel ptrs fuel next (raw ∷ seen) within
                    (one_more (λ again. absurd (cc (new, seen_before-here raw seen again)))
                      distinct)
                    (grown among) (omega (arith, more)))
                (sym (check_chain_new fuel raw seen inside new) ∙ h)
        ]
      ]
    where
      grown : Among raw ptrs → (other : ℕ) → Among other (raw ∷ seen) → Among other ptrs
      grown among _ here = among
      grown among other (there before) = all other before

      from :
          (found : Option Quad)
          → reads raw ≡ found
          → seen_before raw seen ≡ false
          → ((next : ℕ)
              → Among raw ptrs
              → check_chain fuel reads t k_field (raw ∷ seen) next ≢ err out_of_fuel)
          → along t k_field (check_chain fuel reads t k_field (raw ∷ seen)) found ≢ err out_of_fuel
      from none r new later h = absurd (cc h)
      from (some found) r new later h =
          let next = check_chain fuel reads t k_field (raw ∷ seen) in
          elim (Bool-cases (found.t == t)) [
            | inr other ↦ absurd (cc (h, along_other t k_field next found other))
            | inl same ↦
                later (follow k_field found) (within raw found r)
                  (sym (along_same t k_field next found same) ∙ h)
          ]

-- With more fuel than the memory has quads, the check of a chain of the given type never runs out
-- of it, and it passes exactly when the chain ends.
pub check_cyclic_data-Ends :
    (reads : Reads) (check : CyclicDataCheck) (ptrs : List ℕ) (fuel : ℕ)
    → Within reads check.t check.k_field ptrs
    → length ptrs < fuel
    → (check_cyclic_data fuel reads check ≢ err out_of_fuel)
      × ((check_cyclic_data fuel reads check ≡ ok tt)
          ↔ ((n : ℕ) × Ends reads check.t check.k_field check.raw n))
unfolding check_cyclic_data
check_cyclic_data-Ends reads check ptrs fuel within more =
    let in_fuel =
      chain_in_fuel reads check.t check.k_field ptrs fuel check.raw [] within none_of
        (λ other among. elim among [ ]) (omega (arith, more)) in
    (
      in_fuel,
      (
        chain-Ends reads check.t check.k_field fuel check.raw [],
        λ (n, ends).
            elim (chain_passes reads check.t check.k_field fuel check.raw n [] ends
              (λ other among. elim among [ ])) [
                | inl passes ↦ passes
                | inr out ↦ absurd (in_fuel out)
              ],
      ),
    )
