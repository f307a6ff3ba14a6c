-- ===== src/Vm/Typed/Alu.antt =====
-- What `execute` of crates/mipsevm/src/mips/mips_vm.rs gives for u32 operands is a u32.
use cannon_rs.Prelude.{
  ℕ, ◌*◌, ◌/◌, ◌^◌, ◌<◌, inl, inr, ltb, leb, ◌==◌, ==_iff, ◌&&◌, ◌||◌, Bool-cases, if◌then◌else◌,
  bit_and, bit_or, bit_xor, Result, ok, err, invalid_opcode, Holds, Holds-if, arith,
}
use cannon_rs.Word.{sub32, shl32, shr32, not32}
use cannon_rs.Word.Bounds.{bit_and-lt, bit_or-lt, bit_xor-lt, shl32-lt, shr32-le}
use cannon_rs.Vm.Alu.{
  sign_extend, function_code, execute_function, execute_special2, execute_memory, execute,
}
use cannon_rs.Vm.LeadingOnes.{count_ends}

-- A result that is a u32, if it is a value.
abbrev pub IsWord : Result ℕ → Type 0
IsWord r = Holds (λ v. v < 2 ^ 32) r

pub sign_extend-lt : (value index : ℕ) → sign_extend value index < 2 ^ 32
unfolding sign_extend
sign_extend-lt value index = ground (
  arith,
  bit_and-lt 32 value (sub32 (shl32 1 index) 1) (omega arith),
  bit_or-lt 32 (bit_and value (sub32 (shl32 1 index) 1))
      (shl32 (sub32 (shl32 1 (sub32 32 index)) 1) index)
      (bit_and-lt 32 value (sub32 (shl32 1 index) 1) (omega arith)) (omega arith),
)

shr32-lt : (x k : ℕ) → x < 2 ^ 32 → shr32 x k < 2 ^ 32
shr32-lt x k h = omega (arith, shr32-le x k)

execute_function-IsWord :
    (fun instruction rs rt : ℕ)
    → rs < 2 ^ 32
    → rt < 2 ^ 32
    → IsWord (execute_function fun instruction rs rt)
unfolding execute_function
execute_function-IsWord fun instruction rs rt h k =
    let shamt = bit_and (instruction / 2 ^ 6) 0x1F in
    let P = λ (v : ℕ). v < 2 ^ 32 in
    Holds-if P (fun == 0) _ _ (shl32-lt rt shamt) (
      Holds-if P (fun == 2) _ _ (shr32-lt rt shamt k) (
        Holds-if P (fun == 3) _ _ (sign_extend-lt (shr32 rt shamt) (sub32 32 shamt)) (
          Holds-if P (fun == 4) _ _ (shl32-lt rt (bit_and rs 0x1F)) (
            Holds-if P (fun == 6) _ _ (shr32-lt rt (bit_and rs 0x1F) k) (
              Holds-if P (fun == 7) _ _ (sign_extend-lt (shr32 rt rs) (sub32 32 rs)) (
                ground (
                  arith,
                  bit_and-lt 32 rs rt k,
                  bit_or-lt 32 rs rt h k,
                  bit_xor-lt 32 rs rt h k,
                )))))))

execute_special2-IsWord : (fun rs rt : ℕ) → rs < 2 ^ 32 → IsWord (execute_special2 fun rs rt)
execute_special2-IsWord fun rs rt h = elim (Bool-cases (fun == 0x02)) [
  | inl mul ↦ unfold execute_special2 in rw mul (omega arith)
  | inr other ↦ elim (Bool-cases (fun == 0x20)) [
    | inl clz ↦
        let (n, returns, few) = count_ends fun rs rt (inl ((==_iff fun 0x20).0 clz)) h in
        rw returns (omega (arith, few))
    | inr unclz ↦ elim (Bool-cases (fun == 0x21)) [
      | inl clo ↦
          let (n, returns, few) = count_ends fun rs rt (inr ((==_iff fun 0x21).0 clo)) h in
          rw returns (omega (arith, few))
      | inr unclo ↦ unfold execute_special2 in rw (other, unclz, unclo) tt
    ]
  ]
]

-- A word with a part of it replaced.
merged-lt : (x mask y : ℕ) → mask < 2 ^ 32 → y < 2 ^ 32 → bit_or (bit_and x mask) y < 2 ^ 32
merged-lt x mask y h k = bit_or-lt 32 (bit_and x mask) y (bit_and-lt 32 x mask h) k

-- The last cases of `execute_memory`.
abbrev stores : ℕ → ℕ → ℕ → ℕ → Result ℕ
stores opcode rs rt mem =
    let byte = bit_and rs 0x3 * 8 in
    let half = bit_and rs 0x2 * 8 in
    if opcode == 0x28
    then (let sl = sub32 24 byte in
        ok (bit_or (bit_and mem (bit_xor 0xFFFFFFFF (shl32 0xFF sl))) (shl32 (bit_and rt 0xFF) sl)))
    else if opcode == 0x29
    then (let sl = sub32 16 half in
        ok (
          bit_or (bit_and mem (bit_xor 0xFFFFFFFF (shl32 0xFFFF sl)))
            (shl32 (bit_and rt 0xFFFF) sl)))
    else if opcode == 0x2A
    then ok (bit_or (bit_and mem (not32 (shr32 0xFFFFFFFF byte))) (shr32 rt byte))
    else if opcode == 0x2B
    then ok rt
    else if opcode == 0x2E
    then (let sl = sub32 24 byte in
        ok (bit_or (bit_and mem (not32 (shl32 0xFFFFFFFF sl))) (shl32 rt sl)))
    else if opcode == 0x30
    then ok mem
    else if opcode == 0x38
    then ok rt
    else err (invalid_opcode opcode)

-- The stores, and the conditional load and store.
execute_store-IsWord :
    (opcode rs rt mem : ℕ) → rt < 2 ^ 32 → mem < 2 ^ 32 → IsWord (stores opcode rs rt mem)
execute_store-IsWord opcode rs rt mem h k =
    let P = λ (v : ℕ). v < 2 ^ 32 in
    let byte = bit_and rs 0x3 * 8 in
    let sr = sub32 24 byte in
    let sh = sub32 16 (bit_and rs 0x2 * 8) in
    Holds-if P (opcode == 0x28) _ _
      (merged-lt mem (bit_xor 0xFFFFFFFF (shl32 0xFF sr)) (shl32 (bit_and rt 0xFF) sr)
        (bit_xor-lt 32 0xFFFFFFFF (shl32 0xFF sr) (omega arith) (shl32-lt 0xFF sr))
        (shl32-lt (bit_and rt 0xFF) sr))
      (Holds-if P (opcode == 0x29) _ _
        (merged-lt mem (bit_xor 0xFFFFFFFF (shl32 0xFFFF sh)) (shl32 (bit_and rt 0xFFFF) sh)
          (bit_xor-lt 32 0xFFFFFFFF (shl32 0xFFFF sh) (omega arith) (shl32-lt 0xFFFF sh))
          (shl32-lt (bit_and rt 0xFFFF) sh))
        (Holds-if P (opcode == 0x2A) _ _
          (merged-lt mem (not32 (shr32 0xFFFFFFFF byte)) (shr32 rt byte) (omega arith)
            (shr32-lt rt byte h))
          (Holds-if P (opcode == 0x2B) _ _ h (
            Holds-if P (opcode == 0x2E) _ _
              (merged-lt mem (not32 (shl32 0xFFFFFFFF sr)) (shl32 rt sr) (omega arith)
                (shl32-lt rt sr))
              (Holds-if P (opcode == 0x30) _ _ k (Holds-if P (opcode == 0x38) _ _ h tt))))))

execute_memory-IsWord :
    (opcode rs rt mem : ℕ) → rt < 2 ^ 32 → mem < 2 ^ 32 → IsWord (execute_memory opcode rs rt mem)
unfolding execute_memory
execute_memory-IsWord opcode rs rt mem h k =
    let P = λ (v : ℕ). v < 2 ^ 32 in
    let byte = bit_and rs 0x3 * 8 in
    let half = bit_and rs 0x2 * 8 in
    let sr = sub32 24 byte in
    let sh = sub32 16 half in
    Holds-if P (opcode == 0x0F) _ _ (shl32-lt rt 16) (
      Holds-if P (opcode == 0x20) _ _ (sign_extend-lt (bit_and (shr32 mem sr) 0xFF) 8) (
        Holds-if P (opcode == 0x21) _ _ (sign_extend-lt (bit_and (shr32 mem sh) 0xFFFF) 16) (
          Holds-if P (opcode == 0x22) _ _
            (merged-lt rt (not32 (shl32 0xFFFFFFFF byte)) (shl32 mem byte) (omega arith)
              (shl32-lt mem byte))
            (Holds-if P (opcode == 0x23) _ _ k (
              Holds-if P (opcode == 0x24) _ _ (bit_and-lt 32 (shr32 mem sr) 0xFF (omega arith)) (
                Holds-if P (opcode == 0x25) _ _ (bit_and-lt 32 (shr32 mem sh) 0xFFFF (omega arith))
                  (Holds-if P (opcode == 0x26) _ _
                    (merged-lt rt (not32 (shr32 0xFFFFFFFF sr)) (shr32 mem sr) (omega arith)
                      (shr32-lt mem sr k))
                    (execute_store-IsWord opcode rs rt mem h k))))))))

pub execute-IsWord :
    (instruction rs rt mem : ℕ)
    → rs < 2 ^ 32
    → rt < 2 ^ 32
    → mem < 2 ^ 32
    → IsWord (execute instruction rs rt mem)
unfolding execute
execute-IsWord instruction rs rt mem h k l =
    let opcode = instruction / 2 ^ 26 in
    Holds-if (λ (v : ℕ). v < 2 ^ 32) (opcode == 0 || leb 8 opcode && ltb opcode 0xF) _ _
      (execute_function-IsWord (function_code opcode instruction) instruction rs rt h k)
      (Holds-if (λ (v : ℕ). v < 2 ^ 32) (opcode == 0x1C) _ _
        (execute_special2-IsWord (bit_and instruction 0x3F) rs rt h)
        (execute_memory-IsWord opcode rs rt mem k l))
