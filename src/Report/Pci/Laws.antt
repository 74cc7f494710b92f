-- ===== src/Report/Pci/Laws.antt =====
-- What the report sees of a device's configuration space.
use linuxtools.Base.{
  ℕ, zero, suc, sym, ◌⊎◌, ◌+◌, ◌*◌, ◌≡◌, ◌≤◌, refl, ◌∙◌, ap, false, List, [], ◌∷◌, some, leb, arith,
  All, Result, ok, length, take, drop, get_or, Bool-cases, inl, inr, leb→le,
}
use linuxtools.Str.{Text}
use linuxtools.Utf8.{decode_ignore, decode_from, step, lead, encode_latin1}
use linuxtools.Utf8.Laws.{IsAscii, decode_ignore-ascii, encode_latin1-ascii}
use linuxtools.Report.Pci.{
  PciFunction, new_function, read_config, unpack_u16, unpack_u8, get_vendor_id, get_device_id,
  get_revision, get_device_class, get_subsystem_vendor_id, get_subsystem_id, is_sfc,
}

-- A device whose configuration file holds `bytes`: what `get_pci_devices` makes of it.
abbrev pub load : Text → List ℕ → Result PciFunction
load address bytes = new_function address (decode_ignore bytes)

-- The little-endian word at an offset.
abbrev pub word : List ℕ → ℕ → ℕ
word bytes offset = get_or bytes offset 0 + 256 * get_or bytes (offset + 1) 0

get_or-drop : (n i : ℕ) (xs : List ℕ) → get_or (drop n xs) i 0 ≡ get_or xs (n + i) 0
get_or-drop zero i xs = let e : zero + i ≡ i = omega arith in ap (λ k. get_or xs k 0) (sym e)
get_or-drop (suc n) i [] = refl
get_or-drop (suc n) i (x ∷ xs) =
    get_or-drop n i xs
    ∙ (let e : suc n + i ≡ suc (n + i) = omega arith in ap (λ k. get_or (x ∷ xs) k 0) (sym e))

unpack_u16-take :
    (xs : List ℕ) → unpack_u16 (some (take 2 xs)) ≡ get_or xs 0 0 + 256 * get_or xs 1 0
unfolding unpack_u16
unpack_u16-take [] = refl
unpack_u16-take (x ∷ []) = refl
unpack_u16-take (x ∷ y ∷ xs) = refl

unpack_u8-take : (xs : List ℕ) → unpack_u8 (some (take 1 xs)) ≡ get_or xs 0 0
unfolding unpack_u8
unpack_u8-take [] = refl
unpack_u8-take (x ∷ xs) = refl

module _ (f : PciFunction) where
  read_config-in :
      (offset size : ℕ)
      → offset + size ≤ length f.config_data
      → read_config f offset size ≡ some (take size (drop offset f.config_data))
  unfolding read_config
  read_config-in offset size h = ground arith

  pub unpack_u16-read_config :
      (offset : ℕ)
      → offset + 2 ≤ length f.config_data
      → unpack_u16 (read_config f offset 2) ≡ word f.config_data offset
  unpack_u16-read_config offset h =
      rw (read_config-in offset 2 h, unpack_u16-take (drop offset f.config_data))
        (omega (
          arith,
          get_or-drop offset 0 f.config_data,
          get_or-drop offset 1 f.config_data,
          at_zero offset,
        ))
    where
      at_zero : (k : ℕ) → get_or f.config_data (k + 0) 0 ≡ get_or f.config_data k 0
      at_zero k = let e : k + 0 ≡ k = omega arith in ap (λ n. get_or f.config_data n 0) e

  pub unpack_u8-read_config :
      (offset : ℕ)
      → offset + 1 ≤ length f.config_data
      → unpack_u8 (read_config f offset 1) ≡ get_or f.config_data offset 0
  unpack_u8-read_config offset h =
      rw (read_config-in offset 1 h, unpack_u8-take (drop offset f.config_data), get_or-drop)
        (let e : offset + 0 ≡ offset = omega arith in ap (λ n. get_or f.config_data n 0) e)

-- Where all bytes are below 128, each field is the one that the configuration space has at its
-- offset, little-endian.
pub load-ascii :
    (address : Text) (bytes : List ℕ)
    → All IsAscii bytes
    → 48 ≤ length bytes
    → (f : PciFunction) × (load address bytes ≡ ok f)
      × (get_vendor_id f ≡ word bytes 0x00)
      × (get_device_id f ≡ word bytes 0x02)
      × (get_revision f ≡ get_or bytes 0x08 0)
      × (get_device_class f ≡ word bytes 0x0a)
      × (get_subsystem_vendor_id f ≡ word bytes 0x2c)
      × (get_subsystem_id f ≡ word bytes 0x2e)
unfolding new_function get_vendor_id get_device_id get_revision get_device_class
    get_subsystem_vendor_id get_subsystem_id
load-ascii address bytes h n =
    let f : PciFunction = record { address = address; config_data = bytes } in
    (
      f,
      rw (decode_ignore-ascii bytes h, encode_latin1-ascii bytes h),
      unpack_u16-read_config f 0x00 (omega arith),
      unpack_u16-read_config f 0x02 (omega arith),
      unpack_u8-read_config f 0x08 (omega arith),
      unpack_u16-read_config f 0x0a (omega arith),
      unpack_u16-read_config f 0x2c (omega arith),
      unpack_u16-read_config f 0x2e (omega arith),
    )

decode_ignore-xilinx :
    (rest : List ℕ) → decode_ignore (0xee ∷ 0x10 ∷ rest) ≡ 0x10 ∷ decode_ignore rest
unfolding decode_ignore decode_from step lead
decode_ignore-xilinx rest = refl

encode_latin1-first :
    (c : ℕ) (cs : Text) {bs : List ℕ} → encode_latin1 (c ∷ cs) ≡ ok bs → get_or bs 0 0 ≡ c
unfolding encode_latin1
encode_latin1-first c cs e = ground arith

get_vendor_id-low :
    (f : PciFunction)
    → (get_vendor_id f ≡ 0)
      ⊎ ((high : ℕ) × (get_vendor_id f ≡ get_or f.config_data 0 0 + 256 * high))
unfolding get_vendor_id read_config
get_vendor_id-low f = elim (Bool-cases (leb 2 (length f.config_data))) [
  | inl there ↦ inr (get_or f.config_data 1 0, unpack_u16-read_config f 0 (leb→le 2 _ there))
  | inr short ↦ inl (rw (short, read_config) (unfold unpack_u16 in refl))
]

new_function-config_data :
    (address text : Text) {f : PciFunction}
    → new_function address text ≡ ok f
    → encode_latin1 text ≡ ok f.config_data
unfolding new_function
new_function-config_data address text e = ground arith

not_sfc :
    (f : PciFunction)
    → (get_vendor_id f ≡ 0) ⊎ ((h : ℕ) × (get_vendor_id f ≡ 0x10 + 256 * h))
    → is_sfc f ≡ false
unfolding is_sfc
not_sfc f (inl e) = rw e
not_sfc f (inr (h, e)) = ground (arith, e)

-- A Xilinx adapter, whose vendor 0x10ee is stored as the bytes ee 10, is never listed: the first
-- byte is lost in decoding, whatever follows.
pub load-xilinx :
    (address : Text) (rest : List ℕ) {f : PciFunction}
    → load address (0xee ∷ 0x10 ∷ rest) ≡ ok f
    → is_sfc f ≡ false
load-xilinx address rest {f} e =
    let bytes = new_function-config_data address (decode_ignore (0xee ∷ 0x10 ∷ rest)) e in
    let first = encode_latin1-first 0x10 (decode_ignore rest) (rw decode_ignore-xilinx at bytes) in
    not_sfc f (rw first at (get_vendor_id-low f))
