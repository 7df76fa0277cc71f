-- ===== src/Loader/Populate/KeptQuads.antt =====
-- vm/js/loader.js: what populate writes for each kind of quad is recorded.
use u_fork.Prelude.{
  ℕ, ◌≡◌, refl, arith, Bool, true, false, ◌==◌, ==_iff, if◌then◌else◌, List, none, some, ◌⊎◌, inl,
  inr,
}
use u_fork.Prelude.Int.{ℤ}
use u_fork.Ufork.Constants.{nil_raw, type_t, pair_t, dict_t}
use u_fork.Ufork.Raw.{fixnum}
use u_fork.Ufork.Memory.{Fields}
use u_fork.Loader.Actions.{
  RomOps, TypeCheck, Load, pure, ◌>>◌, write, push_type_check, push_cyclic_data_check,
  CyclicDataCheck, expected_dict,
}
use u_fork.Loader.Populate.{write_ptr, populate_type, populate_pair, populate_dict}
use u_fork.Loader.Populate.Linked
use u_fork.Loader.Populate.Kept.{Writes, IsSafe, other-Recorded, dict-Recorded}

module _ {S : Type 0} where
  module _ (ops : RomOps S) (ptr : ℕ) where
    pub write_ptr-Keeps :
        (fields : Fields) (s : Linked.Log S)
        → Linked.IsRecorded s
        → Linked.Recorded s.type_checks fields
        → Linked.Keeps Linked.Any s (write_ptr (Linked.logged ops) ptr fields s)
    unfolding write_ptr ◌>>◌
    write_ptr-Keeps fields s recorded new =
        Linked.bind-Keeps (write (Linked.logged ops) ptr fields) (λ _. pure ptr) s
          (Linked.write-Keeps ops ptr fields s recorded new)
          (λ _ s' recorded' _ _. Linked.pure-Keeps ptr s' recorded' tt)

    pub populate_type-IsSafe : (arity : ℤ) → IsSafe S (populate_type (Linked.logged ops) ptr arity)
    unfolding populate_type
    populate_type-IsSafe arity s recorded = write_ptr-Keeps _ s recorded (
        other-Recorded s.type_checks type_t (some (fixnum arity)) none none (λ e. omega arith)
          (λ e. omega arith))

    -- A check that is pushed only in some cases.
    push_if-Keeps :
        (b : Bool) (check : CyclicDataCheck) (s : Linked.Log S)
        → Linked.IsRecorded s
        → Linked.Keeps Linked.Any s ((if b then push_cyclic_data_check check else pure tt) s)
    push_if-Keeps true check s recorded = Linked.push_cyclic_data_check-Keeps check s recorded
    push_if-Keeps false check s recorded = Linked.pure-Keeps tt s recorded tt

    pub populate_pair-IsSafe :
        (head tail : Load (Writes S) ℕ) (local : Bool)
        → IsSafe S head
        → IsSafe S tail
        → IsSafe S (populate_pair (Linked.logged ops) ptr head tail local)
    unfolding populate_pair ◌>>◌
    populate_pair-IsSafe head tail local head_safe tail_safe s recorded =
        Linked.bind-Keeps head _ s (head_safe s recorded) (λ x s1 recorded1 _ _.
          Linked.bind-Keeps tail _ s1 (tail_safe s1 recorded1) (λ y s2 recorded2 _ _.
            Linked.bind-Keeps (if local then push_cyclic_data_check _ else pure tt) _ s2
              (push_if-Keeps local _ s2 recorded2)
              (λ _ s3 recorded3 _ _. write_ptr-Keeps _ s3 recorded3 (
                other-Recorded s3.type_checks pair_t (some x) (some y) none (λ e. omega arith)
                  (λ e. omega arith)))))

    -- Nil, or a pointer that is checked.
    push_dict-Keeps :
        (z : ℕ) (s : Linked.Log S)
        → Linked.IsRecorded s
        → Linked.Keeps
            (λ _ checks. (z ≡ nil_raw) ⊎ Linked.HasCheck z dict_t checks)
            s
            ((if z == nil_raw
                then pure tt
                else push_type_check (record { raw = z; t = dict_t; msg = expected_dict }))
              s)
    push_dict-Keeps z s recorded = decided (z == nil_raw) (λ h. (==_iff z nil_raw).0 h)
      where
        decided :
            (b : Bool)
            → (b ≡ true → z ≡ nil_raw)
            → Linked.Keeps
                (λ _ checks. (z ≡ nil_raw) ⊎ Linked.HasCheck z dict_t checks)
                s
                ((if b
                    then pure tt
                    else push_type_check (record { raw = z; t = dict_t; msg = expected_dict }))
                  s)
        decided true is_nil = Linked.pure-Keeps tt s recorded (inl (is_nil refl))
        decided false is_nil =
            Linked.weaken-Keeps (λ _ checks among. inr (_, among, refl, refl))
              (Linked.push_type_check-Keeps (record { raw = z; t = dict_t; msg = expected_dict }) s
                recorded)

    pub populate_dict-IsSafe :
        (key item next : Load (Writes S) ℕ) (local : Bool)
        → IsSafe S key
        → IsSafe S item
        → IsSafe S next
        → IsSafe S (populate_dict (Linked.logged ops) ptr key item next local)
    unfolding populate_dict ◌>>◌
    populate_dict-IsSafe key item next local key_safe item_safe next_safe s recorded =
        Linked.bind-Keeps key _ s (key_safe s recorded) (λ x s1 recorded1 _ _.
          Linked.bind-Keeps item _ s1 (item_safe s1 recorded1) (λ y s2 recorded2 _ _.
            Linked.bind-Keeps next _ s2 (next_safe s2 recorded2) (λ z s3 recorded3 _ _.
              Linked.bind-Keeps (if z == nil_raw then pure tt else push_type_check _) _ s3
                (push_dict-Keeps z s3 recorded3)
                (λ _ s4 recorded4 _ checked.
                  Linked.bind-Keeps (if local then push_cyclic_data_check _ else pure tt) _ s4
                    (push_if-Keeps local _ s4 recorded4)
                    (λ _ s5 recorded5 grows _.
                      write_ptr-Keeps _ s5 recorded5 (
                        dict-Recorded s5.type_checks (some x) (some y) z (later grows checked)))))))
      where
        later :
            {z : ℕ} {checks checks' : List TypeCheck}
            → Linked.Grows checks checks'
            → (z ≡ nil_raw) ⊎ Linked.HasCheck z dict_t checks
            → (z ≡ nil_raw) ⊎ Linked.HasCheck z dict_t checks'
        later grows (inl e) = inl e
        later grows (inr has) = inr (Linked.HasCheck-Grows grows has)
