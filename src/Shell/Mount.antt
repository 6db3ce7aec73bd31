-- ===== src/Shell/Mount.antt =====
-- The command that `osNetMountNAS` of vos.c puts together.
use cvos.Prelude.{ℕ, ◌≤◌, ◌<◌, ◌≡◌, refl, sym, ◌∙◌, ap, arith, inl, inr, ◌⊎◌}
use cvos.Prelude.{List, [], ◌∷◌, ◌++◌, Option, none, some, true, false, Bool-cases, ◌>>=◌}
use cvos.Prelude.{◌==◌, if◌then◌else◌, ltb, length, length-append, codes}
use mathlib.Core.List.{append_assoc, append-nil}
use cvos.Files.{Calls}
use cvos.Shell.{print_into, cat, mount_line, net_mount_nas}

-- one `strcat` after the other
abbrev cats : List ℕ → List (List ℕ) → Option (List ℕ)
cats b [] = some b
cats b (p ∷ ps) = cat 256 b p >>= λ b'. cats b' ps

abbrev joined : List (List ℕ) → List ℕ
joined [] = []
joined (p ∷ ps) = p ++ joined ps

-- They are a fault where one print of all of it would be.
cats-print :
    (b : List ℕ) (ps : List (List ℕ)) → length b < 256 → cats b ps ≡ print_into 256 (b ++ joined ps)
cats-print b [] h =
    let fits : ltb (length b) 256 ≡ true = ground arith in rw (append-nil b, fits) refl
cats-print b (p ∷ ps) h = elim (Bool-cases (ltb (length (b ++ p)) 256)) [
  | inl fits ↦
      rw fits
        (cats-print (b ++ p) ps (ground arith) ∙ ap (print_into 256) (append_assoc b p (joined ps)))
  | inr long ↦
      let longer : ltb (length (b ++ (p ++ joined ps))) 256 ≡ false =
        ground (
          arith,
          length-append b (p ++ joined ps),
          length-append p (joined ps),
          length-append b p,
        ) in
      rw (long, longer) refl
]

-- The slash in front of a share that has none
abbrev pub slash : List ℕ → List ℕ
slash [] = codes "/"
slash (c ∷ share) = if c == b'/' then [] else codes "/"

abbrev pub mount_text : List ℕ → List ℕ → List ℕ → List ℕ → List ℕ
mount_text user pwd server share =
    codes "mount -t cifs -o username="
    ++ (user
        ++ (codes ",password="
            ++ (pwd
                ++ (codes " //" ++ (server ++ (slash share ++ (share ++ codes " /mnt/nas/")))))))

-- the pieces in their order
abbrev pieces : List ℕ → List ℕ → List ℕ → List (List ℕ) → List (List ℕ)
pieces user pwd server rest =
    codes "mount -t cifs -o "
    ∷ codes "username="
    ∷ user
    ∷ codes ","
    ∷ codes "password="
    ∷ pwd
    ∷ codes " //"
    ∷ server
    ∷ rest

line-cats :
    (user pwd server share : List ℕ)
    → (mount_line user pwd server share
          ≡ cats [] (pieces user pwd server (share ∷ codes " " ∷ codes "/mnt/nas/" ∷ [])))
        × (slash share ≡ [])
      ⊎ (mount_line user pwd server share
          ≡ cats []
              (pieces user pwd server (codes "/" ∷ share ∷ codes " " ∷ codes "/mnt/nas/" ∷ [])))
        × (slash share ≡ codes "/")
unfolding mount_line
line-cats user pwd server [] = inr (refl, refl)
line-cats user pwd server (c ∷ share) = elim (Bool-cases (c == b'/')) [
  | inl root ↦ inl (rw root refl, rw root refl)
  | inr other ↦ inr (rw other refl, rw other refl)
]

line-print :
    (user pwd server share : List ℕ)
    → mount_line user pwd server share ≡ print_into 256 (mount_text user pwd server share)
line-print user pwd server share =
    let whole = λ (front : List ℕ). print_into 256 (
      codes "mount -t cifs -o username="
      ++ (user
          ++ (codes ",password="
              ++ (pwd
                  ++ (codes " //" ++ (server ++ (front ++ (share ++ codes " /mnt/nas/")))))))) in
    elim (line-cats user pwd server share) [
      | inl (e, none_added) ↦
          e
          ∙ cats-print [] (pieces user pwd server (share ∷ codes " " ∷ codes "/mnt/nas/" ∷ []))
              (omega arith)
          ∙ ap whole (sym none_added)
      | inr (e, added) ↦
          e
          ∙ cats-print []
              (pieces user pwd server (codes "/" ∷ share ∷ codes " " ∷ codes "/mnt/nas/" ∷ []))
              (omega arith)
          ∙ ap whole (sym added)
    ]

-- On four strings `osNetMountNAS` runs the shell once, on the command that mounts the share, with a slash put
-- in front of a share that has none, and returns its status, if that command is shorter than 256 bytes; if it
-- is longer, the buffer is overrun.
pub net_mount_nas_lem :
    (q : Calls) (user pwd server share : List ℕ) (s : q.State)
    → let text = mount_text user pwd server share in
      let out = q.system text s in
      (length text < 256
        → net_mount_nas q (some user) (some pwd) (some server) (some share) s ≡ some (out.0, out.3))
      × (256 ≤ length text
          → net_mount_nas q (some user) (some pwd) (some server) (some share) s ≡ none)
unfolding net_mount_nas
net_mount_nas_lem q user pwd server share s =
    let text = mount_text user pwd server share in
    (
      λ short.
          let fits : ltb (length text) 256 ≡ true = ground arith in
          let line : mount_line user pwd server share ≡ some text =
            line-print user pwd server share ∙ rw fits refl in
          rw line refl,
      λ long.
          let over : ltb (length text) 256 ≡ false = ground arith in
          let line : mount_line user pwd server share ≡ none =
            line-print user pwd server share ∙ rw over refl in
          rw line refl,
    )
