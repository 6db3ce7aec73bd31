-- ===== src/Ifaces/Freed.antt =====
-- `utl_IfGetInfo` of utils.c on the pointer to a list that is freed.
use cvos.Prelude.{ℕ, ◌≡◌, refl, List, [], ◌∷◌, Option, none, some}
use cvos.Prelude.{◌||◌, not, bytes_eq}
use cvos.Prelude.{Bool-cases, inl, inr, ◌⊎◌}
use cvos.Ifaces.{Address, inet, packet, other, Entry, freed}
use cvos.Ifaces.{print_address, add_to_link, loopback, take_address, take_entry}
use cvos.Ifaces.{take_entries, get_if_info, Wanted, copy_out, free_list, if_get_info}

take_address-freed :
    (name : List ℕ) (o : Option Address) (buf : List ℕ)
    → (take_address name o buf freed ≡ none) ⊎ (take_address name o buf freed ≡ some (buf, freed))
unfolding take_address print_address add_to_link
take_address-freed name none buf = inr refl
take_address-freed name (some (inet text)) buf = inl refl
take_address-freed name (some (packet bytes)) buf = inl refl
take_address-freed name (some other) buf = inr refl

take_entry-freed :
    (name : List ℕ) (e : Entry) (buf : List ℕ)
    → (take_entry name e buf freed ≡ none) ⊎ (take_entry name e buf freed ≡ some (buf, freed))
unfolding take_entry
take_entry-freed name e buf =
    elim (Bool-cases (bytes_eq e.name loopback || not (bytes_eq e.name name))) [
      | inl skipped ↦ inr (rw skipped)
      | inr taken ↦ elim (take_address-freed e.name e.address buf) [
        | inl fault ↦ inl (rw taken fault)
        | inr same ↦ inr (rw taken same)
      ]
    ]

take_entries-freed :
    (name : List ℕ) (es : List Entry) (buf : List ℕ)
    → (take_entries name es buf freed ≡ none) ⊎ (take_entries name es buf freed ≡ some freed)
unfolding take_entries
take_entries-freed name [] buf = inr refl
take_entries-freed name (e ∷ es) buf = elim (take_entry-freed name e buf) [
  | inl fault ↦ inl (rw fault)
  | inr same ↦ elim (take_entries-freed name es buf) [
    | inl fault ↦ inl (rw same fault)
    | inr same' ↦ inr (rw same same')
  ]
]

-- Once the list is freed, every call of `utl_IfGetInfo` is a fault.
pub if_get_info-freed :
    (name : List ℕ) (answer : Option (List Entry)) (w : Wanted)
    → if_get_info name answer w freed ≡ none
unfolding if_get_info get_if_info copy_out free_list
if_get_info-freed name none w = refl
if_get_info-freed name (some es) w = elim (take_entries-freed name es []) [
  | inl fault ↦ rw fault
  | inr same ↦ rw same
]
