-- ===== src/Layers/Ip/Outcome.antt =====
-- What the parsers of IPv4, IPv6 and of the headers behind them do to the context.
use maja.Base.{
  ℕ, ◌+◌, ◌*◌, ◌≤◌, ◌≡◌, ◌≢◌, min, ◌&&◌, not, Bool-cases, inl, inr, none, some, List, arith, ltb,
  ◌==◌, if◌then◌else◌, length,
}
use mathlib.Core.Option.{some-injective}
use maja.Field.{whole}
use maja.Protocol.{Protocol}
use maja.Protocol.IpProtocol
use maja.Context.{
  ParseError, malformed, stuck, err, Parser, Done, ParseFn, fail, ◌>>◌, rest, within, trailer,
  saturating_add, usize_max,
}
use maja.Context.Outcome.{Outcome-same}
use maja.Context.Require.{Outcome-require, Outcome-require_fits}
use maja.Context.Rules.{Serves, Outcome-if}
use maja.Context.Within.{Outcome-within}
use maja.Layers.{field}
use maja.Layers.Rules.{
  Next, Parses, Next-raw, Next-if, Next-payload, Next-registered, Parses-header, Outcome-layer,
}
use maja.Layers.Transport.Outcome.{length-rest}
use maja.Layers.Ip.{
  declared, ipv4, ipv4_child, ipv4_payload, ipv6, ipv6_child, ipv6_frag, dispatch, chain,
  length_prefixed, parse_ext_header, ah, esp,
}

declared-le :
    (next at len e : ℕ)
    → next ≤ usize_max
    → (1 ≤ len → next ≤ at + len)
    → declared at len ≡ some e
    → next ≤ e
declared-le next at len e fits low q = elim (Bool-cases (len == 0)) [
  | inl empty ↦ absurd (go (rw empty at q))
  | inr positive ↦
      let s : saturating_add at len ≡ e =
        some-injective (saturating_add at len) e (rw positive at q) in
      let l = low (ground arith) in omega arith
]
  where
    go : none ≡ some e → ⊥
    go p = cc

module _ (parse : Protocol → ParseFn) (fuel : ℕ) (serves : Serves parse fuel) where
  Next-dispatch : (next code : ℕ) → Next fuel next (dispatch parse next code)
  Next-dispatch next code = Next-payload parse fuel serves (ipv6_child code) next _ (
      Next-if fuel next (code == IpProtocol.ipv6_no_nxt) _ _ (Next-raw fuel next)
        (Next-registered parse fuel serves Protocol.ipv6 code next _ (Next-raw fuel next)))

  Next-chain : (next code : ℕ) → Next fuel next (chain parse next code)
  Next-chain next code c h inside enough =
      Outcome-if (length (rest c next) == 0) (Next-raw fuel next c h inside enough)
        (Next-dispatch next code c h inside enough)

  pub ipv6_frag-Parses : Parses fuel (ipv6_frag parse)
  unfolding ipv6_frag
  ipv6_frag-Parses = Parses-header fuel Protocol.ipv6_frag 8 _ (omega arith) (λ offset header.
      Next-if fuel (offset + 8) _ _ _ (Next-dispatch (offset + 8) (field (whole 1) 0 header))
        (Next-raw fuel (offset + 8)))

  Parses-length_prefixed :
      (p : Protocol) (min_len fixed_len : ℕ) (declared_len : List ℕ → ℕ) (e : ParseError)
      → 1 ≤ min_len
      → 1 ≤ fixed_len
      → e ≢ stuck
      → Parses fuel (length_prefixed parse p min_len fixed_len declared_len e)
  Parses-length_prefixed p min_len fixed_len declared_len e pos pos' real offset c h inside enough =
      Outcome-require p offset min_len c _ h (λ prefix room.
        let len : ℕ = min (declared_len prefix) (length (rest c offset)) in
        elim (Bool-cases (ltb (declared_len prefix) fixed_len)) [
          | inl short ↦ rw short (Outcome-same offset c (err e) h (λ q. real (cc)))
          | inr long ↦ rw long (
              Parses-header fuel p len _ (ground (arith, length-rest c offset inside))
                (λ at header. Next-chain (at + len) (field (whole 1) 0 header)) offset c h inside
                enough)
        ])

  pub parse_ext_header-Parses :
      (p : Protocol) (fixed_len : ℕ)
      → 1 ≤ fixed_len
      → Parses fuel (parse_ext_header parse p fixed_len)
  unfolding parse_ext_header
  parse_ext_header-Parses p fixed_len pos =
      Parses-length_prefixed p 2 fixed_len _ _ (omega arith) pos (λ e. cc)

  pub ah-Parses : Parses fuel (ah parse)
  unfolding ah
  ah-Parses = Parses-length_prefixed Protocol.ah 12 12 _ _ (omega arith) (omega arith) (λ e. cc)

  -- The payload of a header whose length field is `len`, and what is behind it.
  Next-declared :
      (next at len : ℕ) (body : Parser Done)
      → next ≤ usize_max
      → (1 ≤ len → next ≤ at + len)
      → Next fuel next body
      → Next fuel next (within (declared at len) body >> trailer (declared at len))
  Next-declared next at len body fits low good c h inside enough =
      Outcome-within (declared at len) body c (λ e q. declared-le next at len e fits low q) inside h
        (λ c' h' high below. good c' h' high (omega arith))

  pub ipv6-Parses : Parses fuel (ipv6 parse)
  unfolding ipv6
  ipv6-Parses offset c h inside enough =
      Outcome-require_fits Protocol.ipv6 offset 40 c _ h (λ header room fits.
        Outcome-layer fuel Protocol.ipv6 offset 40 _ c h enough (omega arith) room (
          Next-declared (offset + 40) (offset + 40) (field (whole 2) 4 header) _ fits
            (λ pos. omega arith) (Next-dispatch (offset + 40) (field (whole 1) 6 header))))

  Next-ipv4 :
      (fragment_offset protocol next : ℕ)
      → Next fuel next (ipv4_payload parse fragment_offset protocol next)
  Next-ipv4 fragment_offset protocol next =
      Next-if fuel next (fragment_offset == 0) _ _
        (Next-payload parse fuel serves (ipv4_child protocol) next _
          (Next-registered parse fuel serves Protocol.ipv4 protocol next _ (Next-raw fuel next)))
        (Next-raw fuel next)

  -- A `total length` below the length of the header is refused.
  Next-total :
      (offset header_len total_length : ℕ) (body : Parser Done)
      → offset + header_len ≤ usize_max
      → Next fuel (offset + header_len) body
      → Next fuel (offset + header_len) (
          if not (total_length == 0) && ltb total_length header_len
          then fail (
              malformed Protocol.ipv4 "total length"
                "total length is smaller than the header length")
          else (within (declared offset total_length) body
              >> trailer (declared offset total_length)))
  Next-total offset header_len total_length body fits good =
      elim (Bool-cases (not (total_length == 0) && ltb total_length header_len)) [
        | inl short ↦
            rw short (λ c h inside enough. Outcome-same (offset + header_len) c _ h (λ e. cc))
        | inr long ↦ rw long (
            Next-declared (offset + header_len) offset total_length body fits (λ pos. ground arith)
              good)
      ]

  pub ipv4-Parses : Parses fuel (ipv4 parse)
  unfolding ipv4
  ipv4-Parses offset c h inside enough =
      Outcome-require Protocol.ipv4 offset 20 c _ h (λ min_header room.
        let header_len = field (record { size = 1; mask = 0x0F; shift = 0 }) 0 min_header * 4 in
        elim (Bool-cases (ltb header_len 20)) [
          | inl short ↦ rw short (Outcome-same offset c _ h (λ e. cc))
          | inr long ↦ rw long (
              Outcome-require_fits Protocol.ipv4 offset header_len c _ h (λ header room' fits.
                Outcome-layer fuel Protocol.ipv4 offset header_len _ c h enough (ground arith) room'
                  (Next-total offset header_len (field (whole 2) 2 header) _ fits (
                    Next-ipv4 (field (record { size = 2; mask = 0x1FFF; shift = 0 }) 6 header)
                      (field (record { size = 1; mask = 0xFF; shift = 0 }) 9 header)
                      (offset + header_len)))))
        ])

pub esp-Parses : (fuel : ℕ) → Parses fuel esp
unfolding esp
esp-Parses fuel =
    Parses-header fuel Protocol.esp 8 _ (omega arith) (λ offset header. Next-raw fuel (offset + 8))
