-- ===== src/Prelude/Keeps.antt =====
-- Computations that keep an invariant of the object they change, however they end.
use mathlib.Core.Bool.{Bool, true, false}
use mathlib.Core.Option.{Option, none, some}
use aeron_cluster_cpp.Prelude.Tests.{if◌then◌else◌}
use aeron_cluster_cpp.Prelude.Outcome.{M, Outcome, returns, throws, Fault, final, ◌>>=◌, ◌>>◌, when}

abbrev pub Keeps : {S A : Type 0} → (S → Type 0) → M S A → Type 0
Keeps {S = S} P m = (s : S) → P s → P (final (m s))

module _ {S : Type 0} (P : S → Type 0) where
  -- What goes on by how a call ended.
  pub Keeps_after :
      {A B : Type 0} (o : Outcome S A) (f : A → M S B) (g : Fault → M S B)
      → P (final o)
      → ((x : A) → Keeps P (f x))
      → ((e : Fault) → Keeps P (g e))
      → P (final (elim o as (λ _. Outcome S B) [ returns x s ↦ f x s | throws e s ↦ g e s ]))
  Keeps_after (returns x s) f g p hf hg = hf x s p
  Keeps_after (throws e s) f g p hf hg = hg e s p

  -- The same where the call is on another object.
  pub Keeps_outcome :
      {T A B : Type 0} (o : Outcome T A) (f : A → T → Outcome S B) (g : Fault → T → Outcome S B)
      → ((x : A) (t : T) → P (final (f x t)))
      → ((e : Fault) (t : T) → P (final (g e t)))
      → P (final (elim o as (λ _. Outcome S B) [ returns x t ↦ f x t | throws e t ↦ g e t ]))
  Keeps_outcome (returns x t) f g hf hg = hf x t
  Keeps_outcome (throws e t) f g hf hg = hg e t

  -- The same where the call keeps an invariant of its own.
  pub Keeps_across :
      {T A B : Type 0} (Q : T → Type 0) (o : Outcome T A) (f : A → T → Outcome S B)
      (g : Fault → T → Outcome S B)
      → Q (final o)
      → ((x : A) (t : T) → Q t → P (final (f x t)))
      → ((e : Fault) (t : T) → Q t → P (final (g e t)))
      → P (final (elim o as (λ _. Outcome S B) [ returns x t ↦ f x t | throws e t ↦ g e t ]))
  Keeps_across Q (returns x t) f g q hf hg = hf x t q
  Keeps_across Q (throws e t) f g q hf hg = hg e t q

  pub Keeps-bind :
      {A B : Type 0} (m : M S A) (f : A → M S B)
      → Keeps P m
      → ((x : A) → Keeps P (f x))
      → Keeps P (m >>= f)
  Keeps-bind m f hm hf s p = Keeps_after (m s) f (λ e t. throws e t) (hm s p) hf (λ e t q. q)

  pub Keeps-then :
      {B : Type 0} (m : M S (Unit {0})) (k : M S B) → Keeps P m → Keeps P k → Keeps P (m >> k)
  Keeps-then m k hm hk = Keeps-bind m (λ _. k) hm (λ _. hk)

  pub Keeps-if :
      {A : Type 0} (b : Bool) (m n : M S A) → Keeps P m → Keeps P n → Keeps P (if b then m else n)
  Keeps-if true m n hm hn = hm
  Keeps-if false m n hm hn = hn

  -- The same of two outcomes.
  pub Keeps-choice :
      {A : Type 0} (b : Bool) (o q : Outcome S A)
      → P (final o)
      → P (final q)
      → P (final (if b then o else q))
  Keeps-choice true o q ho hq = ho
  Keeps-choice false o q ho hq = hq

  pub Keeps-maybe :
      {A B : Type 0} (o : Option A) (q : Outcome S B) (f : A → Outcome S B)
      → P (final q)
      → ((x : A) → P (final (f x)))
      → P (final (elim o as (λ _. Outcome S B) [ none ↦ q | some x ↦ f x ]))
  Keeps-maybe none q f hq hf = hq
  Keeps-maybe (some x) q f hq hf = hf x

  pub Keeps-when : (b : Bool) (m : M S (Unit {0})) → Keeps P m → Keeps P (when b m)
  Keeps-when true m h = h
  Keeps-when false m h = λ s p. p

  pub Keeps-option :
      {A B : Type 0} (o : Option A) (m : M S B) (f : A → M S B)
      → Keeps P m
      → ((x : A) → Keeps P (f x))
      → Keeps P (elim o as (λ _. M S B) [ none ↦ m | some x ↦ f x ])
  Keeps-option none m f hm hf = hm
  Keeps-option (some x) m f hm hf = hf x
