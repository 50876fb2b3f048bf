-- ===== src/Transport/Obfuscation/Records.antt =====
-- What is taken off again: records and padding.
use mathlib.Core.List.{append_assoc}
use shin_vpn.Prelude.{
  ℕ, ◌+◌, ◌-◌, ◌≤◌, ◌<◌, ◌^◌, Bytes, ◌∷◌, ◌++◌, true, false, ok, length, take, leb, ltb, ◌≡◌, refl,
  ap, ◌∙◌, arith, take-append, drop-append, length-append, suc, le→ltb,
}
use shin_vpn.Prelude.Struct.{be, pack_be, value_be, value_be-be, length-be}
use shin_vpn.Transport.Obfuscation.{
  pad_len, apply_padding, remove_padding, wrap_tls_record, unwrap_tls_record,
}

apply_padding_inv :
    (raw pad padded : Bytes)
    → apply_padding raw pad ≡ ok padded
    → (length raw < 2 ^ 16) × (padded ≡ be 2 (length raw) ++ (raw ++ pad))
unfolding apply_padding pack_be
apply_padding_inv raw pad padded e = ground arith

wrap_tls_record_inv :
    (raw wrapped : Bytes)
    → wrap_tls_record raw ≡ ok wrapped
    → (length raw < 2 ^ 16) × (wrapped ≡ 0x17 ∷ 0x03 ∷ 0x03 ∷ (be 2 (length raw) ++ raw))
unfolding wrap_tls_record pack_be
wrap_tls_record_inv raw wrapped e = ground arith

-- Whatever bytes the padding is made of, taking it off gives the packet back.
pub remove_padding-apply_padding :
    (raw pad padded : Bytes) → apply_padding raw pad ≡ ok padded → remove_padding padded ≡ raw
unfolding remove_padding
remove_padding-apply_padding raw pad padded e =
    let (fits, is) = apply_padding_inv raw pad padded e in
    let size = length-be 2 (length raw) in
    let long : ltb (length (be 2 (length raw) ++ (raw ++ pad))) 2 ≡ false =
      le→ltb _ _ (omega (arith, length-append (be 2 (length raw)) (raw ++ pad), size)) in
    let number : value_be (take 2 (be 2 (length raw) ++ (raw ++ pad))) ≡ length raw =
      ap value_be (take-append 2 (be 2 (length raw)) (raw ++ pad) size)
      ∙ value_be-be 2 (length raw) fits in
    let count : 2 + length raw - 2 ≡ length raw = omega arith in
    rw (is, long, number, count, drop-append 2 (be 2 (length raw)) (raw ++ pad) size)
      (take-append (length raw) raw pad refl)

-- A wrapped packet is unwrapped to itself, also where more bytes follow the record.
pub unwrap_tls_record-wrap_tls_record :
    (raw rest wrapped : Bytes)
    → wrap_tls_record raw ≡ ok wrapped
    → unwrap_tls_record (wrapped ++ rest) ≡ raw
unfolding unwrap_tls_record
unwrap_tls_record-wrap_tls_record raw rest wrapped e =
    let (fits, is) = wrap_tls_record_inv raw wrapped e in
    let n = be 2 (length raw) in
    let size = length-be 2 (length raw) in
    let split : n ++ raw ++ rest ≡ n ++ (raw ++ rest) = append_assoc n raw rest in
    let long : leb 2 (length (n ++ (raw ++ rest))) ≡ true =
      ground (arith, length-append n (raw ++ rest), size) in
    let long' : leb 5 (suc (suc (suc (length (n ++ (raw ++ rest)))))) ≡ true =
      ground (arith, length-append n (raw ++ rest), size) in
    let number : value_be (take 2 (n ++ (raw ++ rest))) ≡ length raw =
      ap value_be (take-append 2 n (raw ++ rest) size) ∙ value_be-be 2 (length raw) fits in
    let count : 5 + length raw - 5 ≡ length raw = omega arith in
    rw (is, split, long', number, count, drop-append 2 n (raw ++ rest) size)
      (take-append (length raw) raw rest refl)

-- A padded packet has between 16 and 63 bytes of padding and fills whole blocks, or has the extra bytes that were drawn besides.
pub pad_len-cases :
    (extra orig_len : ℕ)
    → 16 ≤ extra
    → extra ≤ 64
    → (16 ≤ pad_len 64 extra orig_len) × (pad_len 64 extra orig_len < 80)
unfolding pad_len
pad_len-cases extra orig_len l u = ground arith
