-- ===== src/Vm/Alu.antt =====
-- `execute` and `sign_extend` of crates/mipsevm/src/mips/mips_vm.rs, on u32 values.
use cannon_rs.Prelude.{
  ℕ, zero, suc, ◌+◌, ◌*◌, ◌/◌, ◌^◌, not, ◌&&◌, ◌||◌, ltb, leb, ◌==◌, if◌then◌else◌, bit_and, bit_or,
  bit_xor, Result, ok, err, diverge, invalid_function, invalid_opcode,
}
use cannon_rs.Prelude.Int.{ltb_ℤ}
use cannon_rs.Word.{add32, sub32, mul32, shl32, shr32, not32, as_i32, of_bool}

-- `sign_extend`.
unfoldable pub sign_extend : ℕ → ℕ → ℕ
sign_extend value index =
    let is_signed = not (shr32 value (sub32 index 1) == 0) in
    let signed = shl32 (sub32 (shl32 1 (sub32 32 index)) 1) index in
    let mask = sub32 (shl32 1 index) 1 in
    if is_signed then bit_or (bit_and value mask) signed else bit_and value mask

-- `while rs & 0x80000000 != 0 { rs <<= 1; i += 1; }`. A u32 is zero after 32 shifts, so 33 rounds
-- of fuel end the loop.
unfoldable pub count_leading_ones : ℕ → ℕ → ℕ → Result ℕ
count_leading_ones zero rs i = diverge
count_leading_ones (suc fuel) rs i =
    let rest = count_leading_ones fuel (shl32 rs 1) (i + 1) in
    if bit_and rs 0x80000000 == 0 then ok i else rest

-- The function code of an R-type instruction, or the one that an immediate instruction stands for.
unfoldable pub function_code : ℕ → ℕ → ℕ
function_code opcode instruction =
    if opcode == 8
    then 0x20
    else if opcode == 9
    then 0x21
    else if opcode == 0xA
    then 0x2A
    else if opcode == 0xB
    then 0x2B
    else if opcode == 0xC
    then 0x24
    else if opcode == 0xD
    then 0x25
    else if opcode == 0xE
    then 0x26
    else bit_and instruction 0x3F

-- The match on `fun` for opcode 0 and the immediate instructions.
unfoldable pub execute_function : ℕ → ℕ → ℕ → ℕ → Result ℕ
unfolding sign_extend
execute_function fun instruction rs rt =
    let shamt = bit_and (instruction / 2 ^ 6) 0x1F in
    if fun == 0
    then ok (shl32 rt shamt)
    else if fun == 2
    then ok (shr32 rt shamt)
    else if fun == 3
    then ok (sign_extend (shr32 rt shamt) (sub32 32 shamt))
    else if fun == 4
    then ok (shl32 rt (bit_and rs 0x1F))
    else if fun == 6
    then ok (shr32 rt (bit_and rs 0x1F))
    else if fun == 7
    then ok (sign_extend (shr32 rt rs) (sub32 32 rs))
    else if leb 8 fun && leb fun 0x0C
        || leb 0x0F fun && leb fun 0x13
        || leb 0x18 fun && leb fun 0x1B
    then ok rs
    else if fun == 0x20 || fun == 0x21
    then ok (add32 rs rt)
    else if fun == 0x22 || fun == 0x23
    then ok (sub32 rs rt)
    else if fun == 0x24
    then ok (bit_and rs rt)
    else if fun == 0x25
    then ok (bit_or rs rt)
    else if fun == 0x26
    then ok (bit_xor rs rt)
    else if fun == 0x27
    then ok (not32 (bit_or rs rt))
    else if fun == 0x2A
    then ok (of_bool (ltb_ℤ (as_i32 rs) (as_i32 rt)))
    else if fun == 0x2B
    then ok (of_bool (ltb rs rt))
    else err (invalid_function fun)

-- SPECIAL2: mul, clz (0x20) and clo (0x21).
unfoldable pub execute_special2 : ℕ → ℕ → ℕ → Result ℕ
unfolding count_leading_ones
execute_special2 fun rs rt =
    if fun == 0x02
    then ok (mul32 rs rt)
    else if fun == 0x20 || fun == 0x21
    then count_leading_ones 33 (if fun == 0x20 then not32 rs else rs) 0
    else err (invalid_function fun)

-- lui, the loads and the stores. `mem` is the word at the aligned address.
unfoldable pub execute_memory : ℕ → ℕ → ℕ → ℕ → Result ℕ
unfolding sign_extend
execute_memory opcode rs rt mem =
    let byte = bit_and rs 0x3 * 8 in
    let half = bit_and rs 0x2 * 8 in
    if opcode == 0x0F
    then ok (shl32 rt 16)
    else if opcode == 0x20
    then ok (sign_extend (bit_and (shr32 mem (sub32 24 byte)) 0xFF) 8)
    else if opcode == 0x21
    then ok (sign_extend (bit_and (shr32 mem (sub32 16 half)) 0xFFFF) 16)
    else if opcode == 0x22
    then ok (bit_or (bit_and rt (not32 (shl32 0xFFFFFFFF byte))) (shl32 mem byte))
    else if opcode == 0x23
    then ok mem
    else if opcode == 0x24
    then ok (bit_and (shr32 mem (sub32 24 byte)) 0xFF)
    else if opcode == 0x25
    then ok (bit_and (shr32 mem (sub32 16 half)) 0xFFFF)
    else if opcode == 0x26
    then (let sr = sub32 24 byte in
        ok (bit_or (bit_and rt (not32 (shr32 0xFFFFFFFF sr))) (shr32 mem sr)))
    else if opcode == 0x28
    then (let sl = sub32 24 byte in
        ok (bit_or (bit_and mem (bit_xor 0xFFFFFFFF (shl32 0xFF sl))) (shl32 (bit_and rt 0xFF) sl)))
    else if opcode == 0x29
    then (let sl = sub32 16 half in
        ok (
          bit_or (bit_and mem (bit_xor 0xFFFFFFFF (shl32 0xFFFF sl)))
            (shl32 (bit_and rt 0xFFFF) sl)))
    else if opcode == 0x2A
    then ok (bit_or (bit_and mem (not32 (shr32 0xFFFFFFFF byte))) (shr32 rt byte))
    else if opcode == 0x2B
    then ok rt
    else if opcode == 0x2E
    then (let sl = sub32 24 byte in
        ok (bit_or (bit_and mem (not32 (shl32 0xFFFFFFFF sl))) (shl32 rt sl)))
    else if opcode == 0x30
    then ok mem
    else if opcode == 0x38
    then ok rt
    else err (invalid_opcode opcode)

-- `execute`.
unfoldable pub execute : ℕ → ℕ → ℕ → ℕ → Result ℕ
unfolding function_code execute_function execute_special2 execute_memory
execute instruction rs rt mem =
    let opcode = instruction / 2 ^ 26 in
    if opcode == 0 || leb 8 opcode && ltb opcode 0xF
    then execute_function (function_code opcode instruction) instruction rs rt
    else if opcode == 0x1C
    then execute_special2 (bit_and instruction 0x3F) rs rt
    else execute_memory opcode rs rt mem
