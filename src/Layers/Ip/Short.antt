-- ===== src/Layers/Ip/Short.antt =====
-- An extension header of IPv6 that the capture cuts off.
use maja.Base.{
  ℕ, ◌+◌, ◌-◌, ◌*◌, ◌≤◌, ◌<◌, ◌≡◌, refl, min, true, false, List, arith, ltb, ◌==◌, length,
}
use maja.Field.{whole}
use maja.Protocol.{Protocol}
use maja.Context.{
  ok, ParseContext, ParseFn, end, rest, slice, usize_max, can_push_layer, append_layer, push_layer,
  parse_raw,
}
use maja.Context.Require.{require-ok}
use maja.Layers.{field}
use maja.Layers.Transport.Outcome.{length-rest}
use maja.Layers.Ip.{parse_ext_header}

-- If the region ends inside of the fixed part of an IPv6 extension header, at least two bytes of
-- it are there, the declared length covers the fixed part, the depth allows a layer and the region
-- is addressable, the parser succeeds and records what is left as the layer, shorter than the
-- fixed part, and nothing behind it.
pub parse_ext_header-short :
    (parse : Protocol → ParseFn) (p : Protocol) (fixed_len offset : ℕ) (c : ParseContext)
    → offset + 2 ≤ end c
    → end c < offset + fixed_len
    → end c ≤ usize_max
    → can_push_layer c ≡ true
    → fixed_len ≤ (field (whole 1) 1 (slice c.bytes offset (offset + 2)) + 1) * 8
    → parse_ext_header parse p fixed_len offset c
      ≡ (ok tt, append_layer c p offset (end c - offset))
unfolding parse_ext_header push_layer parse_raw
parse_ext_header-short parse p fixed_len offset c room short fits can long =
    let prefix : List ℕ = slice c.bytes offset (offset + 2) in
    let declared : ℕ = (field (whole 1) 1 prefix + 1) * 8 in
    let n : ℕ = end c - offset in
    let left = length-rest c offset (omega arith) in
    let enough : ltb declared fixed_len ≡ false = ground arith in
    let len : min declared (length (rest c offset)) ≡ n = omega (arith, left) in
    let c' : ParseContext = append_layer c p offset n in
    let nothing : (length (rest c' (offset + n)) == 0) ≡ true =
      ground (arith, length-rest c' (offset + n) (omega arith)) in
    let ended : ltb (offset + n) (end c') ≡ false = ground arith in
    rw (require-ok p offset 2 c room fits) (
      rw enough (
        rw len
          (rw (require-ok p offset n c (omega arith) fits) (rw can (rw nothing (rw ended refl))))))
