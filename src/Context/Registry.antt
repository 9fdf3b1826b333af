-- ===== src/Context/Registry.antt =====
-- `CustomProtocolRegistry` of src/packet.rs as a map.
use maja.Base.{ℕ, ◌≡◌, ◌≢◌, ◌⊎◌, some, [], ◌∷◌, arith}
use maja.Protocol.{Protocol, id}
use maja.Context.{Registry, registered, register}

-- After register, a lookup finds the new child under its parent and code, and under every other
-- key what it found before.
pub registered-register :
    (registry : Registry) (parent : Protocol) (code : ℕ) (child : Protocol)
    → (registered (register registry parent code child) (id parent) code ≡ some child)
      × ((p c : ℕ)
          → (p ≢ id parent) ⊎ (c ≢ code)
          → registered (register registry parent code child) p c ≡ registered registry p c)
unfolding registered register
registered-register [] parent code child = (ground arith, λ p c differ. ground arith)
registered-register (((p', c'), old) ∷ rest) parent code child =
    let ih = registered-register rest parent code child in
    (ground (arith, ih.0), λ p c differ. ground (arith, ih.1 p c differ))
