-- ===== src/CommandLine/Join.antt =====
-- A command line of several words comes back from commandLineToArgv as its arguments.
use Prim.Native.Char.{Char}
use mathlib.Core.List.{append-nil}
use remote_mouse.Common.{
  ℕ, zero, suc, ◌≤◌, false, List, [], ◌∷◌, ◌++◌, length, length-append, ◌≡◌, refl, sym, ap, ◌∙◌,
  arith, subst,
}
use remote_mouse.CommandLine.{
  is_blank, blank, read_next_arg, argv_loop, command_line_to_argv, join_blank,
}
use remote_mouse.CommandLine.Reader.{Stops, after}

-- The word `enc` of a command line stands for the argument `arg`: it does not begin with a blank,
-- and the reader takes it up to the blank behind it.
pub record Reads (enc arg : List Char) : Type 0 where
  pub first : Char
  pub others : List Char
  pub shape : enc ≡ first ∷ others
  pub not_blank : is_blank first ≡ false
  pub read :
      (rest : List Char)
      → Stops rest
      → read_next_arg false false 0 (enc ++ rest) ≡ (arg, after rest)

abbrev pub AllReads : List (List Char) → List (List Char) → Type 0
AllReads [] [] = Unit
AllReads (e ∷ es) (a ∷ as') = Reads e a × AllReads es as'
AllReads _ _ = ⊥

loop_step :
    (fuel : ℕ) (e a rest : List Char) (r : Reads e a)
    → Stops rest
    → argv_loop (suc fuel) (e ++ rest) ≡ a ∷ argv_loop fuel (after rest)
unfolding argv_loop
loop_step fuel e a rest r stops =
    let read : read_next_arg false false 0 (r.first ∷ r.others ++ rest) ≡ (a, after rest) =
      subst (λ (t : List Char). read_next_arg false false 0 (t ++ rest) ≡ (a, after rest)) r.shape
        (r.read rest stops) in
    ap (λ (t : List Char). argv_loop (suc fuel) (t ++ rest)) r.shape ∙ rw (r.not_blank, read) refl

argv_loop-join_blank :
    (fuel : ℕ) (es as' : List (List Char))
    → AllReads es as'
    → length es ≤ fuel
    → argv_loop fuel (join_blank es) ≡ as'
unfolding argv_loop
argv_loop-join_blank zero [] [] r h = refl
argv_loop-join_blank (suc fuel) [] [] r h = refl
argv_loop-join_blank fuel [] (a ∷ as') r h = absurd r
argv_loop-join_blank fuel (e ∷ es) [] r h = absurd r
argv_loop-join_blank zero (e ∷ es) (a ∷ as') r h = absurd (omega arith)
argv_loop-join_blank (suc fuel) (e ∷ []) (a ∷ []) r h =
    ap (argv_loop (suc fuel)) (sym (append-nil e))
    ∙ loop_step fuel e a [] r.0 tt
    ∙ ap (◌∷◌ a) (argv_loop-join_blank fuel [] [] tt (omega arith))
argv_loop-join_blank (suc fuel) (e ∷ []) (a ∷ b ∷ as') r h = absurd r.1
argv_loop-join_blank (suc fuel) (e ∷ f ∷ es) (a ∷ as') r h =
    loop_step fuel e a (blank ∷ join_blank (f ∷ es)) r.0 refl
    ∙ ap (◌∷◌ a) (argv_loop-join_blank fuel (f ∷ es) as' r.1 (omega arith))

Reads-length : (e a : List Char) → Reads e a → 1 ≤ length e
Reads-length e a r = omega (arith, ap length r.shape)

length-join_blank :
    (es as' : List (List Char)) → AllReads es as' → length es ≤ length (join_blank es)
length-join_blank [] as' r = omega arith
length-join_blank (e ∷ es) [] r = absurd r
length-join_blank (e ∷ []) (a ∷ as') r = Reads-length e a r.0
length-join_blank (e ∷ f ∷ es) (a ∷ as') r = omega (
  arith,
  Reads-length e a r.0,
  length-join_blank (f ∷ es) as' r.1,
  length-append e (blank ∷ join_blank (f ∷ es)),
)

-- A line of words reads as the arguments that they stand for.
pub argv-join_blank :
    (es as' : List (List Char)) → AllReads es as' → command_line_to_argv (join_blank es) ≡ as'
unfolding command_line_to_argv
argv-join_blank es as' r =
    argv_loop-join_blank (length (join_blank es)) es as' r (length-join_blank es as' r)
