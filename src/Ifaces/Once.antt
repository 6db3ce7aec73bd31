-- ===== src/Ifaces/Once.antt =====
-- What `utl_IfGetInfo` of utils.c finds in its first call, and what it leaves to the next ones.
use cvos.Prelude.{ℕ, ◌≤◌, ◌≡◌, refl, ◌∙◌, ap, arith, List, [], ◌∷◌, ◌++◌, Option, none, some}
use cvos.Prelude.{true, false, pos, if◌then◌else◌, leb, length, bytes_eq}
use cvos.Prelude.{bytes_eq_refl, bytes_eq_sound, Bool-cases, inl, inr, ◌⊎◌, ◌≢◌}
use cvos.Mac.{mac_text}
use cvos.Ifaces.Freed.{if_get_info-freed}
use cvos.Ifaces.{Address, inet, packet, other, Entry, Node, IfInfo, unset, listed, freed}
use cvos.Ifaces.{print_address, fill, new_node, add_to_link, loopback, take_address, take_entry}
use cvos.Ifaces.{take_entries, get_if_info, Wanted, copy_raw, copy_out, free_list, if_get_info}

abbrev pub inet_of : Option Address → List (List ℕ)
inet_of none = []
inet_of (some (inet text)) = text ∷ []
inet_of (some (packet bytes)) = []
inet_of (some other) = []

abbrev pub packet_of : Option Address → List (List ℕ)
packet_of none = []
packet_of (some (inet text)) = []
packet_of (some (packet bytes)) = mac_text (b':' ∷ []) bytes ∷ []
packet_of (some other) = []

-- the hardware address without colons, as what a field holds that was written
abbrev pub raw_of : Option Address → List (Option (List ℕ))
raw_of none = []
raw_of (some (inet text)) = []
raw_of (some (packet bytes)) = some (mac_text [] bytes) ∷ []
raw_of (some other) = []

-- what `raw_buf` holds after an address
abbrev buffer : List ℕ → Option Address → List ℕ
buffer raw none = raw
buffer raw (some (inet text)) = raw
buffer raw (some (packet bytes)) = mac_text [] bytes
buffer raw (some other) = raw

-- the texts of an interface's addresses, by a choice of the family
abbrev pub texts {ℓ} : {A : Type ℓ} → (Option Address → List A) → List ℕ → List Entry → List A
texts choose name [] = []
texts choose name (e ∷ es) =
    (if bytes_eq e.name name then choose e.address else []) ++ texts choose name es

abbrev pub last_or {ℓ} : {A : Type ℓ} → A → List A → A
last_or d [] = d
last_or d (x ∷ xs) = last_or x xs

last_or-append {ℓ} :
    {A : Type ℓ} (d : A) (xs ys : List A) → last_or d (xs ++ ys) ≡ last_or (last_or d xs) ys
last_or-append d [] ys = refl
last_or-append d (x ∷ xs) ys = last_or-append x xs ys

abbrev pub node : List ℕ → List ℕ → List ℕ → Option (List ℕ) → Node
node name ip hd raw = record { name = name; ip = ip; hd = hd; raw = raw }

take_address-listed :
    (name ip hd buf : List ℕ) (raw : Option (List ℕ)) (o : Option Address) (ns : List Node)
    → take_address name o buf (listed (node name ip hd raw) ns)
      ≡ some (
        buffer buf o,
        listed
            (node name (last_or ip (inet_of o)) (last_or hd (packet_of o)) (last_or raw (raw_of o)))
            ns,
      )
unfolding take_address print_address add_to_link fill
take_address-listed name ip hd buf raw none ns = refl
take_address-listed name ip hd buf raw (some (inet text)) ns = rw (bytes_eq_refl name)
take_address-listed name ip hd buf raw (some (packet bytes)) ns = rw (bytes_eq_refl name)
take_address-listed name ip hd buf raw (some other) ns = refl

-- no loopback, and a name that fits in its field
record Proper (name : List ℕ) : Type 0 where
  pub card : bytes_eq name loopback ≡ false
  pub fits : length name ≤ 15

module _ (name : List ℕ) (proper : Proper name) where
  take_entry-skip :
      (e : Entry) (buf : List ℕ) (info : IfInfo)
      → bytes_eq e.name name ≡ false
      → take_entry name e buf info ≡ some (buf, info)
  unfolding take_entry
  take_entry-skip e buf info differs = elim (Bool-cases (bytes_eq e.name loopback)) [
    | inl lo ↦ rw (lo)
    | inr card ↦ rw (card, differs)
  ]

  take_entry-same :
      (e : Entry) (buf : List ℕ) (info : IfInfo)
      → bytes_eq e.name name ≡ true
      → take_entry name e buf info ≡ take_address name e.address buf info
  unfolding take_entry
  take_entry-same e buf info same =
      let named = bytes_eq_sound e.name name same in
      let card : bytes_eq e.name loopback ≡ false =
        ap (λ t. bytes_eq t loopback) named ∙ proper.card in
      rw (card, same) (ap (λ t. take_address t e.address buf info) named)

  take_entries-listed :
      (es : List Entry) (ip hd buf : List ℕ) (raw : Option (List ℕ)) (ns : List Node)
      → take_entries name es buf (listed (node name ip hd raw) ns)
        ≡ some (
            listed
              (node name
                (last_or ip (texts inet_of name es))
                (last_or hd (texts packet_of name es))
                (last_or raw (texts raw_of name es)))
              ns)
  unfolding take_entries
  take_entries-listed [] ip hd buf raw ns = refl
  take_entries-listed (e ∷ es) ip hd buf raw ns = elim (Bool-cases (bytes_eq e.name name)) [
    | inl same ↦
        let ips = inet_of e.address in
        let macs = packet_of e.address in
        let raws = raw_of e.address in
        rw
          (
            take_entry-same e buf (listed (node name ip hd raw) ns) same,
            take_address-listed name ip hd buf raw e.address ns,
            same,
            last_or-append ip ips (texts inet_of name es),
            last_or-append hd macs (texts packet_of name es),
            last_or-append raw raws (texts raw_of name es),
          )
          (take_entries-listed es (last_or ip ips) (last_or hd macs) (buffer buf e.address)
            (last_or raw raws) ns)
    | inr differs ↦
        rw (take_entry-skip e buf (listed (node name ip hd raw) ns) differs, differs)
          (take_entries-listed es ip hd buf raw ns)
  ]

  take_address-unset :
      (o : Option Address) (buf : List ℕ)
      → (inet_of o ≡ [])
          × (packet_of o ≡ [])
          × (raw_of o ≡ [])
          × (take_address name o buf unset ≡ some (buf, unset))
        ⊎ (take_address name o buf unset
            ≡ some (
              buffer buf o,
              listed
                  (node name
                    (last_or [] (inet_of o))
                    (last_or [] (packet_of o))
                    (last_or none (raw_of o)))
                  [],
            ))
  unfolding take_address print_address add_to_link fill new_node
  take_address-unset none buf = inl (refl, refl, refl, refl)
  take_address-unset (some (inet text)) buf =
      let short : leb 16 (length name) ≡ false = ground (arith, proper.fits) in inr (rw short)
  take_address-unset (some (packet bytes)) buf =
      let short : leb 16 (length name) ≡ false = ground (arith, proper.fits) in inr (rw short)
  take_address-unset (some other) buf = inl (refl, refl, refl, refl)

  take_entries-unset :
      (es : List Entry) (buf : List ℕ)
      → texts inet_of name es ++ texts packet_of name es ≢ []
      → take_entries name es buf unset
        ≡ some (
            listed
              (node name
                (last_or [] (texts inet_of name es))
                (last_or [] (texts packet_of name es))
                (last_or none (texts raw_of name es)))
              [])
  unfolding take_entries
  take_entries-unset [] buf some_text = absurd (some_text refl)
  take_entries-unset (e ∷ es) buf some_text = elim (Bool-cases (bytes_eq e.name name)) [
    | inl same ↦
        let ips = inet_of e.address in
        let macs = packet_of e.address in
        let raws = raw_of e.address in
        elim (take_address-unset e.address buf) [
          | inl (no_ip, no_mac, no_raw, stays) ↦
              rw (take_entry-same e buf unset same, stays, same, no_ip, no_mac, no_raw)
                (take_entries-unset es buf
                  (λ nothing. some_text (rw (same, no_ip, no_mac) nothing)))
          | inr begins ↦
              rw
                (
                  take_entry-same e buf unset same,
                  begins,
                  same,
                  last_or-append [] ips (texts inet_of name es),
                  last_or-append [] macs (texts packet_of name es),
                  last_or-append none raws (texts raw_of name es),
                )
                (take_entries-listed es (last_or [] ips) (last_or [] macs) (buffer buf e.address)
                  (last_or none raws) [])
        ]
    | inr differs ↦
        rw (take_entry-skip e buf unset differs, differs)
          (take_entries-unset es buf (λ nothing. some_text (rw differs nothing)))
  ]

-- the two ways to ask that have an answer: not for `raw_mac`, or with a hardware address to give
abbrev pub Answered : Wanted → List ℕ → List Entry → Option (List ℕ) → Type 0
Answered w name es raw =
    (w.raw ≡ false) × (raw ≡ none)
    ⊎ ((w.raw ≡ true)
        × (t : List ℕ) × (raw ≡ some t)
        × (last_or none (texts raw_of name es) ≡ some t))

copy_raw-Answered :
    (w : Wanted) (name : List ℕ) (es : List Entry) (raw : Option (List ℕ))
    → Answered w name es raw
    → copy_raw w.raw (last_or none (texts raw_of name es)) ≡ some raw
unfolding copy_raw
copy_raw-Answered w name es raw (inl (no_raw, nothing)) = rw (no_raw, nothing) refl
copy_raw-Answered w name es raw (inr (asked, t, given', found)) = rw (asked, given', found) refl

-- Asked for an interface that has an address, and is not `lo`, and for `raw_mac` only where the interface has
-- a hardware address, the first call of `utl_IfGetInfo` gives the last IPv4 address and the last hardware
-- address that the system lists for it, each empty if there is none, and at `raw_mac` the latter without
-- colons; every call after that, whatever it is given, is a fault, since the first leaves the pointer to the
-- list that it freed.
pub if_get_info_once :
    (name : List ℕ) (es : List Entry) (w : Wanted) (raw : Option (List ℕ))
    → bytes_eq name loopback ≡ false
    → length name ≤ 15
    → texts inet_of name es ++ texts packet_of name es ≢ []
    → Answered w name es raw
    → (info : IfInfo) × (if_get_info name (some es) w unset
        ≡ some (
          pos 0,
          record {
            mac = if w.mac then some (last_or [] (texts packet_of name es)) else none;
            ip = if w.ip then some (last_or [] (texts inet_of name es)) else none;
            raw = raw;
          },
          info,
        ))
      × ((name' : List ℕ) (answer : Option (List Entry)) (w' : Wanted)
          → if_get_info name' answer w' info ≡ none)
unfolding if_get_info get_if_info copy_out free_list
if_get_info_once name es w raw card short some_text answered = (
  freed,
  rw
      (
        take_entries-unset name (record { card = card; fits = short }) es [] some_text,
        copy_raw-Answered w name es raw answered,
      )
      refl,
  if_get_info-freed,
)
