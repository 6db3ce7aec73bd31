-- ===== src/Utils/Leftover.antt =====
-- What the shared `str` of `utl_NetSetFtpSvr` leaves of one string in the next.
use cvos.Prelude.{ℕ, zero, suc, ◌+◌, ◌≤◌, ◌≡◌, refl, sym, ◌∙◌, ap, arith}
use cvos.Prelude.{List, [], ◌∷◌, ◌++◌, some, true}
use cvos.Prelude.{ℤ, length, take, take-append, drop, replicate, copy, copy-mid, strlen}
use mathlib.Core.List.{append_assoc, append-nil}
use cvos.Config.Line.{lacks_char, split_at_char-first}
use cvos.Prelude.{no_nul, no_nul-cases, no_nul-append, no_nul-drop}
use cvos.Utils.{buffer, put_string, set_password, set_ftp_svr}

zeros : ℕ → List ℕ
zeros k = replicate k 0

-- a new string over an old one: the new one, and what it does not reach of the old one
abbrev pub over : List ℕ → List ℕ → List ℕ
over new old = new ++ drop (length new) old

-- The bytes that a new string takes the place of
Place : List ℕ → List ℕ → ℕ → Type 0
Place new old k =
    (gone : List ℕ) × (k' : ℕ) × (old ++ zeros (suc k)
      ≡ gone ++ (drop (length new) old ++ zeros (suc k')))
    × (length gone ≡ length new)
    × (length (over new old) + k' ≡ length old + k)

drop_nil : (n : ℕ) → drop {A = ℕ} n [] ≡ []
drop_nil zero = refl
drop_nil (suc n) = refl

place : (new old : List ℕ) (k : ℕ) → length new ≤ length old + k → Place new old k
unfolding Place zeros
place [] old k l = ([], k, refl, refl, refl)
place (n ∷ new) [] zero l = absurd (omega arith)
place (n ∷ new) [] (suc k) l =
    let (gone, k', whole, same, size) = place new [] k (omega arith) in
    let none_left = ap (λ t. length (new ++ t)) (drop_nil (length new)) in
    (
      0 ∷ gone,
      k',
      ap (λ t. 0 ∷ t) (whole ∙ ap (λ t. gone ++ (t ++ zeros (suc k'))) (drop_nil (length new))),
      ap suc same,
      omega arith,
    )
place (n ∷ new) (o ∷ old) k l =
    let (gone, k', whole, same, size) = place new old k (omega arith) in
    (o ∷ gone, k', ap (λ t. o ∷ t) whole, ap suc same, omega arith)

strlen-zeros :
    (s : List ℕ) (k : ℕ) → no_nul s ≡ true → strlen (s ++ zeros (suc k)) ≡ some (length s)
unfolding strlen zeros
strlen-zeros [] k h = refl
strlen-zeros (c ∷ s) k h =
    let (other, rest) = no_nul-cases c s h in rw (other, strlen-zeros s k rest) refl

-- What `strncpy` of a string over an old one leaves in a block that is 0 behind it
pub put_string-over :
    (new old : List ℕ) (k : ℕ)
    → length new ≤ length old + k
    → no_nul new ≡ true
    → no_nul old ≡ true
    → (k' : ℕ) × (put_string (old ++ replicate (suc k) 0) new
        ≡ some (over new old, over new old ++ replicate (suc k') 0))
      × (length (over new old) + k' ≡ length old + k)
unfolding put_string Place zeros
put_string-over new old k l h j =
    let (gone, k', whole, same, size) = place new old k l in
    let rest = drop (length new) old ++ zeros (suc k') in
    let clean : no_nul (over new old) ≡ true =
      no_nul-append new _ h (no_nul-drop (length new) old j) in
    let copied : copy (old ++ zeros (suc k)) 0 new ≡ some (over new old ++ zeros (suc k')) =
      ap (λ t. copy t 0 new) whole
      ∙ copy-mid [] gone rest new 0 refl (sym same)
      ∙ ap some (sym (append_assoc new (drop (length new) old) (zeros (suc k')))) in
    let first : take (length (over new old)) (over new old ++ zeros (suc k')) ≡ over new old =
      take-append (over new old) (zeros (suc k')) in
    (k', rw (put_string, copied, strlen-zeros (over new old) k' clean, first) refl, size)

over_nil : (new : List ℕ) → over new [] ≡ new
over_nil new = ap (λ t. new ++ t) (drop_nil (length new)) ∙ append-nil new

no_nul-over :
    (new old : List ℕ) → no_nul new ≡ true → no_nul old ≡ true → no_nul (over new old) ≡ true
no_nul-over new old h j = no_nul-append new _ h (no_nul-drop (length new) old j)

-- the part of an address after the user
abbrev pub after_user : List ℕ → List ℕ → List ℕ → List ℕ
after_user pw srv port = pw ++ (b'@' ∷ (srv ++ (b':' ∷ port)))

set_password_lem :
    (atoi : List ℕ → ℤ) (user pw srv port : List ℕ) (k : ℕ)
    → length user + k ≡ 31
    → length pw ≤ 31
    → length srv ≤ 31
    → no_nul user ≡ true
    → no_nul pw ≡ true
    → no_nul srv ≡ true
    → lacks_char b'@' pw ≡ true
    → lacks_char b':' srv ≡ true
    → set_password atoi (user ++ replicate (suc k) 0) user (after_user pw srv port)
      ≡ some record {
        user = user;
        passwd = over pw user;
        server = over srv (over pw user);
        port = atoi port;
      }
unfolding set_password
set_password_lem atoi user pw srv port k total lp ls nu np ns at colon =
    let (k2, second, size2) = put_string-over pw user k (omega arith) np nu in
    let (k3, third, size3) =
      put_string-over srv (over pw user) k2 (omega arith) ns (no_nul-over pw user np nu) in
    rw
      (
        set_password,
        split_at_char-first b'@' pw (srv ++ (b':' ∷ port)) at,
        second,
        split_at_char-first b':' srv port colon,
        third,
      )
      refl

-- Of an address `...//user:password@server:port` whose user, password and server have no NUL, none of the
-- separators that end them, and at most 31 bytes, and in which no `/` stands before, `utl_NetSetFtpSvr`
-- gives the user and the port; a password that is shorter than the user is followed by the rest of the user,
-- and a server that is shorter than what is given as the password by the rest of that.
pub set_ftp_svr_lem :
    (atoi : List ℕ → ℤ) (pre user pw srv port : List ℕ)
    → length user ≤ 31
    → length pw ≤ 31
    → length srv ≤ 31
    → no_nul user ≡ true
    → no_nul pw ≡ true
    → no_nul srv ≡ true
    → lacks_char b'/' pre ≡ true
    → lacks_char b':' user ≡ true
    → lacks_char b'@' pw ≡ true
    → lacks_char b':' srv ≡ true
    → set_ftp_svr atoi (pre ++ (b'/' ∷ b'/' ∷ (user ++ (b':' ∷ after_user pw srv port))))
      ≡ some record {
        user = user;
        passwd = over pw user;
        server = over srv (over pw user);
        port = atoi port;
      }
unfolding set_ftp_svr
set_ftp_svr_lem atoi pre user pw srv port lu lp ls nu np ns slash colon at colon' =
    let rest = after_user pw srv port in
    let (k, first, size) = put_string-over user [] 31 (omega arith) nu refl in
    let whole : put_string buffer user ≡ some (user, user ++ replicate (suc k) 0) =
      first ∙ ap (λ t. some (t, t ++ replicate (suc k) 0)) (over_nil user) in
    let total : length user + k ≡ 31 =
      ap (λ t. length t + k) (sym (over_nil user)) ∙ size ∙ omega arith in
    rw
      (
        set_ftp_svr,
        split_at_char-first b'/' pre (b'/' ∷ (user ++ (b':' ∷ rest))) slash,
        split_at_char-first b':' (b'/' ∷ user) rest colon,
        whole,
      )
      (set_password_lem atoi user pw srv port k total lp ls nu np ns at colon')
