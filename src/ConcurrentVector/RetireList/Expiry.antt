-- ===== src/ConcurrentVector/RetireList/Expiry.antt =====
-- `expire` of src/concurrent/vector.h.
use wizard.Prelude.{ℕ, ◌+◌, ◌-◌, ◌%◌, ◌^◌, ◌≤◌, ◌<◌, ◌≡◌, ◌⊎◌, ◌↔◌, sym, ◌∙◌, ap, false, arith, ltb}
use wizard.Prelude.Bits.{and-mask, or-fields}
use wizard.ConcurrentVector.RetireList.{get_ptr, get_tag, make_tagged_ptr, expire}

-- A pointer below 2^48 and a tag of 16 bits are read back from their tagged pointer.
pub get_ptr-make_tagged_ptr :
    (ptr tag : ℕ)
    → ptr < 2 ^ 48
    → tag < 2 ^ 16
    → (get_ptr (make_tagged_ptr ptr tag) ≡ ptr) × (get_tag (make_tagged_ptr ptr tag) ≡ tag)
unfolding get_ptr get_tag make_tagged_ptr
get_ptr-make_tagged_ptr ptr tag p q =
    let e = or-fields 48 (tag % 2 ^ 16) ptr p in
    let mask = and-mask 48 (make_tagged_ptr ptr tag) in (omega (arith, e, mask), omega (arith, e))

ltb-false : (a b : ℕ) → ltb a b ≡ false → b ≤ a
ltb-false a b h = ground arith

false-ltb : (a b : ℕ) → b ≤ a → ltb a b ≡ false
false-ltb a b h = ground arith

near :
    (tag now : ℕ)
    → tag < 2 ^ 16
    → now < 2 ^ 16
    → (tag + (2 ^ 16 - now)) % 2 ^ 16 ≤ 1
    → (now ≡ tag) ⊎ ((now + 1) % 2 ^ 16 ≡ tag)
near tag now q r h = omega arith

far :
    (tag now : ℕ)
    → tag < 2 ^ 16
    → now < 2 ^ 16
    → (now ≡ tag) ⊎ ((now + 1) % 2 ^ 16 ≡ tag)
    → (tag + (2 ^ 16 - now)) % 2 ^ 16 ≤ 1
far tag now q r h = omega arith

-- A list whose last table was retired with this time stamp is kept in exactly two units of
-- time: in the same one, and in the one before. It is expired in every later one, also in the
-- next, which may begin at once.
pub expire_iff :
    (ptr tag now : ℕ)
    → ptr < 2 ^ 48
    → tag < 2 ^ 16
    → now < 2 ^ 16
    → (expire (make_tagged_ptr ptr tag) now ≡ false) ↔ ((now ≡ tag) ⊎ ((now + 1) % 2 ^ 16 ≡ tag))
unfolding expire
expire_iff ptr tag now p q r =
    let e = (get_ptr-make_tagged_ptr ptr tag p q).1 in
    let test : expire (make_tagged_ptr ptr tag) now ≡ ltb 1 ((tag + (2 ^ 16 - now)) % 2 ^ 16) =
      ap (λ g. ltb 1 ((g + (2 ^ 16 - now)) % 2 ^ 16)) e in
    (
      λ h. near tag now q r (ltb-false 1 ((tag + (2 ^ 16 - now)) % 2 ^ 16) (sym test ∙ h)),
      λ h. test ∙ false-ltb 1 ((tag + (2 ^ 16 - now)) % 2 ^ 16) (far tag now q r h),
    )
