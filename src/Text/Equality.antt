-- ===== src/Text/Equality.antt =====
-- `text_eq` decides equality, and `member` membership.
use mailclear.Base.{
  ◌≡◌, refl, ◌↔◌, inl, inr, ◌≢◌, true, false, List, [], ◌∷◌, ◌++◌, arith, ◌∈◌, ◌||◌,
  eq_false_of_ne_true,
}
use mailclear.Text.Defs.{Text, text_eq, member, insert}

pub text_eq_sound : (s t : Text) → text_eq s t ≡ true → s ≡ t
unfolding text_eq
text_eq_sound [] [] h = refl
text_eq_sound [] (b ∷ t) h = cc
text_eq_sound (a ∷ s) [] h = cc
text_eq_sound (a ∷ s) (b ∷ t) h = ground (arith, text_eq_sound s t)

pub text_eq_refl : (s : Text) → text_eq s s ≡ true
unfolding text_eq
text_eq_refl [] = refl
text_eq_refl (a ∷ s) = ground (arith, text_eq_refl s)

pub text_eq_iff : (s t : Text) → (text_eq s t ≡ true) ↔ (s ≡ t)
text_eq_iff s t = (text_eq_sound s t, λ e. rw e (text_eq_refl t))

pub text_eq_comm : (s t : Text) → text_eq s t ≡ text_eq t s
text_eq_comm s t = ground (arith, text_eq_iff s t, text_eq_iff t s)

pub text_eq_of_ne : (s t : Text) → s ≢ t → text_eq s t ≡ false
text_eq_of_ne s t h = eq_false_of_ne_true _ (λ e. h (text_eq_sound s t e))

pub member-mem : (s : Text) (ts : List Text) → member s ts ≡ true → s ∈ ts
unfolding member
member-mem s [] h = cc
member-mem s (t ∷ ts) h = ground (arith, text_eq_iff s t, member-mem s ts)

pub mem-member : (s : Text) (ts : List Text) → s ∈ ts → member s ts ≡ true
unfolding member
mem-member s [] h = absurd h
mem-member s (t ∷ ts) (inl e) = ground (arith, text_eq_iff s t)
mem-member s (t ∷ ts) (inr h) = ground (arith, mem-member s ts h)

pub member_iff : (s : Text) (ts : List Text) → (member s ts ≡ true) ↔ (s ∈ ts)
member_iff s ts = (member-mem s ts, mem-member s ts)

pub member-append :
    (s : Text) (ts us : List Text) → member s (ts ++ us) ≡ (member s ts || member s us)
unfolding member
member-append s [] us = refl
member-append s (t ∷ ts) us = ground (arith, member-append s ts us)

pub member-insert :
    (s t : Text) (ts : List Text) → member s (insert t ts) ≡ (text_eq s t || member s ts)
unfolding insert member
member-insert s t ts = ground (arith, member-append s ts (t ∷ []), text_eq_iff s t)
