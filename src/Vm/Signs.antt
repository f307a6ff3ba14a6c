-- ===== src/Vm/Signs.antt =====
-- `sign_extend` and the shifts of crates/mipsevm/src/mips/mips_vm.rs that use it.
use cannon_rs.Prelude.{ℕ, ◌+◌, ◌/◌, ◌^◌, ◌<◌, ◌≡◌, ltb, if◌then◌else◌, bit_and, arith, ok}
use cannon_rs.Word.Bits.{bit_and_mask, bit_or_fields'}
use cannon_rs.Vm.Alu.{sign_extend, execute_function}

-- `sign_extend` of a 16-bit value keeps a value below 2 ^ 15, and sets the upper 16 bits of another.
sign_extend_half :
    (value : ℕ)
    → value < 2 ^ 16
    → sign_extend value 16 ≡ (if ltb value (2 ^ 15) then value else value + 0xFFFF0000)
unfolding sign_extend
sign_extend_half value h = ground (arith, bit_and_mask 16 value, bit_or_fields' 16 0xFFFF value h)

-- `sign_extend` of an 8-bit value keeps a value below 2 ^ 7, and sets the upper 24 bits of another.
sign_extend_byte :
    (value : ℕ)
    → value < 2 ^ 8
    → sign_extend value 8 ≡ (if ltb value (2 ^ 7) then value else value + 0xFFFFFF00)
unfolding sign_extend
sign_extend_byte value h = ground (arith, bit_and_mask 8 value, bit_or_fields' 8 0xFFFFFF value h)

-- An arithmetic right shift (`sra`, function 3) of a u32 by the amount 0 gives 0, whatever the value
-- of the register.
pub sra_by_zero :
    (instruction rs rt : ℕ)
    → bit_and (instruction / 2 ^ 6) 0x1F ≡ 0
    → rt < 2 ^ 32
    → execute_function 3 instruction rs rt ≡ ok 0
unfolding execute_function sign_extend
sra_by_zero instruction rs rt h small = rw h (ground (arith, bit_and_mask 0 rt))
