-- ===== src/Layers/Link/Outcome.antt =====
-- What the parsers of the link layers do to the context.
use maja.Base.{
  ℕ, zero, suc, ◌+◌, ◌≤◌, ◌<◌, ◌≡◌, ◌≢◌, Bool, true, false, Option, none, some, get_elem?, arith,
  ◌==◌, if◌then◌else◌,
}
use maja.Field.{whole}
use maja.Protocol.{Protocol, eth_type_from, eth_type_into}
use maja.Context.{
  ParseError, stuck, Result, ok, err, ParseContext, ParseFn, ◌>>◌, and_then, pure, end, push_layer,
  parse_raw, dispatch_registered,
}
use maja.Context.Outcome.{Outcome, Outcome-same, Outcome-push}
use maja.Context.Require.{found, short, require_cases, Outcome-require}
use maja.Context.Rules.{Serves, Outcome-choose, Outcome-last}
use maja.Layers.{field, payload}
use maja.Layers.Rules.{
  Next, Parses, Next-raw, Next-if, Next-payload, Next-registered, Parses-header,
}
use maja.Layers.Link.{
  eth, eth_child, vlan, vlan_child, llc, is_snap, snap_child, sll, mpls, mpls_entries, mpls_payload,
  arp,
}

-- The label stack was read up to `next`, or is cut off.
data Stack (len offset : ℕ) (c : ParseContext) : Result (ℕ × ℕ) × ParseContext → Type 0 where
  bottom :
      (total next : ℕ)
      → offset < next
      → next ≤ end c
      → total + offset ≡ len + next
      → Stack len offset c (ok (total, next), c)
  broken : (e : ParseError) → e ≢ stuck → Stack len offset c (err e, c)

-- The loop comes to an end, and its fuel does not run out.
mpls_entries_lem :
    (fuel len offset : ℕ) (c : ParseContext)
    → offset ≤ end c
    → end c < offset + fuel
    → Stack len offset c (mpls_entries fuel len offset c)
unfolding mpls_entries
mpls_entries_lem zero len offset c inside enough = absurd (omega arith)
mpls_entries_lem (suc fuel) len offset c inside enough =
    elim (require_cases Protocol.mpls offset 4 c) [
      | short e real same ↦ rw same (broken e real)
      | found entry room fits same ↦ rw same (
          go (field (record { size = 4; mask = 0x100; shift = 8 }) 0 entry == 0)
            (deeper room _ (mpls_entries_lem fuel (len + 4) (offset + 4) c room (omega arith)))
            room)
    ]
  where
    deeper :
        offset + 4 ≤ end c
        → (r : Result (ℕ × ℕ) × ParseContext) → Stack (len + 4) (offset + 4) c r
        → Stack len offset c r
    deeper room r (bottom total next above inside sum) =
        bottom total next (omega arith) inside (omega arith)
    deeper room r (broken e real) = broken e real

    go :
        (b : Bool)
        → Stack len offset c (mpls_entries fuel (len + 4) (offset + 4) c)
        → offset + 4 ≤ end c
        → Stack len offset c
            ((if b then mpls_entries fuel (len + 4) (offset + 4) else pure (len + 4, offset + 4)) c)
    go true more room = more
    go false more room = bottom (len + 4) (offset + 4) (omega arith) room (omega arith)

module _ (parse : Protocol → ParseFn) (fuel : ℕ) (serves : Serves parse fuel) where
  -- The children of the crate, or else a registered one, or else raw bytes.
  Next-match :
      (child : Option Protocol) (parent : Protocol) (code next : ℕ)
      → Next fuel next
          (payload parse child next (dispatch_registered parse parent code next (parse_raw next)))
  Next-match child parent code next =
      Next-payload parse fuel serves child next _
        (Next-registered parse fuel serves parent code next (parse_raw next) (Next-raw fuel next))

  pub eth-Parses : Parses fuel (eth parse)
  unfolding eth
  eth-Parses = Parses-header fuel Protocol.eth 14 _ (omega arith) (λ offset header.
      let t = eth_type_from (field (whole 2) 12 header) in
      Next-match (eth_child t) Protocol.eth (eth_type_into t) (offset + 14))

  pub vlan-Parses : Parses fuel (vlan parse)
  unfolding vlan
  vlan-Parses = Parses-header fuel Protocol.vlan 4 _ (omega arith) (λ offset header.
      let t = eth_type_from (field (whole 2) 2 header) in
      Next-match (vlan_child t) Protocol.vlan (eth_type_into t) (offset + 4))

  pub sll-Parses : Parses fuel (sll parse)
  unfolding sll
  sll-Parses = Parses-header fuel Protocol.sll 16 _ (omega arith) (λ offset header.
      let t = eth_type_from (field (whole 2) 14 header) in
      Next-if fuel (offset + 16) (field (whole 2) 2 header == 1) _ _
        (Next-match (snap_child t) Protocol.sll (eth_type_into t) (offset + 16))
        (Next-raw fuel (offset + 16)))

  pub llc-Parses : Parses fuel (llc parse)
  unfolding llc
  llc-Parses offset c h inside enough =
      Outcome-require Protocol.llc offset 3 c _ h (λ min_header room.
        Outcome-choose (is_snap min_header) _ _
          (Parses-header fuel Protocol.llc 8 _ (omega arith)
            (λ at header.
              Next-payload parse fuel serves (snap_child (eth_type_from (field (whole 2) 6 header)))
                (at + 8) _ (Next-raw fuel (at + 8)))
            offset c h inside enough)
          (Outcome-same offset c (ok tt) h (λ e. cc)))

  Next-mpls : (first : Option ℕ) (next : ℕ) → Next fuel next (mpls_payload parse first next)
  Next-mpls none next = λ c h inside enough. Outcome-same next c (ok tt) h (λ e. cc)
  Next-mpls (some first) next = Next-payload parse fuel serves _ next _ (Next-raw fuel next)

  pub mpls-Parses : Parses fuel (mpls parse)
  unfolding mpls
  mpls-Parses offset c h inside enough =
      go (mpls_entries (suc (end c)) 0 offset c)
        (mpls_entries_lem (suc (end c)) 0 offset c inside (omega arith))
    where
      go :
          (r : Result (ℕ × ℕ) × ParseContext)
          → Stack 0 offset c r
          → Outcome offset c (
              and_then
                (λ (len, next_offset). push_layer Protocol.mpls offset len >> λ c'.
                  mpls_payload parse (get_elem? c'.bytes next_offset) next_offset c')
                r)
      go r (bottom total next above room sum) =
          let reach : offset + total ≡ next = omega arith in
          Outcome-push c Protocol.mpls offset total _ h (omega arith) (omega arith) (λ c' h' same.
            rw reach (
              Next-mpls (get_elem? c'.bytes next) next c' h' (omega (arith, same))
                (omega (arith, same))))
      go r (broken e real) = Outcome-same offset c (err e) h (λ q. real (cc))

pub arp-Parses : (fuel : ℕ) → Parses fuel arp
unfolding arp
arp-Parses fuel offset c h inside enough =
    Outcome-require Protocol.arp offset 8 c _ h (λ header room.
      Outcome-require Protocol.arp offset _ c _ h
        (λ whole_header room'. Outcome-last Protocol.arp offset _ c h (omega arith) room'))
