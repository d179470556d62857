-- ===== src/Main/Usage.antt =====
-- The command line of c/main.c, against the usage message.
use retriever.Base.{◌≡◌, refl, sym, subst, inl, inr, true, Bool-cases, List, [], ◌∷◌}
use retriever.Base.{bytes_eq, bytes_eq→eq}
use retriever.Os.World.{Bytes}
use retriever.Transfer.Path.{basename_of}
use retriever.Main.{Command, Parsed, accepted, misused, unknown}
use retriever.Main.{word_list, word_get, word_put, word_o}
use retriever.Main.{parse_list, parse_get, parse_put, parse_command}

-- The command lines that the usage message shows.
pub data Usage : List Bytes → Command → Type 0 where
  lists : (program host port : Bytes) → Usage (program ∷ host ∷ port ∷ word_list ∷ []) Command.list
  gets :
      (program host port name : Bytes)
      → Usage (program ∷ host ∷ port ∷ word_get ∷ name ∷ []) (Command.get name (basename_of name))
  gets_as :
      (program host port name other : Bytes)
      → Usage
          (program ∷ host ∷ port ∷ word_get ∷ name ∷ word_o ∷ other ∷ [])
          (Command.get name other)
  puts :
      (program host port name : Bytes)
      → Usage (program ∷ host ∷ port ∷ word_put ∷ name ∷ []) (Command.put name (basename_of name))
  puts_as :
      (program host port name other : Bytes)
      → Usage (program ∷ host ∷ port ∷ word_put ∷ name ∷ other ∷ []) (Command.put name other)

-- What the parser makes of a usage.
abbrev pub Accepts : List Bytes → Command → Type 0
Accepts (program ∷ host ∷ port ∷ command ∷ arguments) c =
    parse_command command arguments ≡ accepted c
Accepts _ c = ⊥

pub Usage-Accepts : (argv : List Bytes) (c : Command) → Usage argv c → Accepts argv c
unfolding parse_command parse_list parse_get parse_put
Usage-Accepts _ _ (lists program host port) = refl
Usage-Accepts _ _ (gets program host port name) = refl
Usage-Accepts _ _ (gets_as program host port name other) = refl
Usage-Accepts _ _ (puts program host port name) = refl
Usage-Accepts _ _ (puts_as program host port name other) = refl

abbrev pub IsMisuse : List Bytes → Type 0
IsMisuse argv = (c : Command) → ¬ Usage argv c

-- An accepted command line is a usage.
abbrev pub Reads : List Bytes → Parsed → Type 0
Reads argv (accepted c) = Usage argv c
Reads argv misused = Unit
Reads argv unknown = Unit

module _ (program host port : Bytes) where
  parse_list-Reads :
      (arguments : List Bytes)
      → Reads (program ∷ host ∷ port ∷ word_list ∷ arguments) (parse_list arguments)
  unfolding parse_list
  parse_list-Reads [] = lists program host port
  parse_list-Reads (a ∷ rest) = tt

  parse_get-Reads :
      (arguments : List Bytes)
      → Reads (program ∷ host ∷ port ∷ word_get ∷ arguments) (parse_get arguments)
  unfolding parse_get
  parse_get-Reads [] = tt
  parse_get-Reads (name ∷ []) = gets program host port name
  parse_get-Reads (name ∷ option ∷ []) = tt
  parse_get-Reads (name ∷ option ∷ other ∷ []) = elim (Bool-cases (bytes_eq option word_o)) [
    | inl e ↦ rw e (
        subst
          (λ (o : Bytes).
            Usage (program ∷ host ∷ port ∷ word_get ∷ name ∷ o ∷ other ∷ [])
              (Command.get name other))
          (sym (bytes_eq→eq option word_o e)) (gets_as program host port name other))
    | inr e ↦ rw e tt
  ]
  parse_get-Reads (name ∷ option ∷ other ∷ more ∷ rest) = tt

  parse_put-Reads :
      (arguments : List Bytes)
      → Reads (program ∷ host ∷ port ∷ word_put ∷ arguments) (parse_put arguments)
  unfolding parse_put
  parse_put-Reads [] = tt
  parse_put-Reads (name ∷ []) = puts program host port name
  parse_put-Reads (name ∷ other ∷ []) = puts_as program host port name other
  parse_put-Reads (name ∷ other ∷ more ∷ rest) = tt

  -- What holds of a word holds of a command that is equal to it.
  parsed_word :
      (word command : Bytes) (arguments : List Bytes) (p : Parsed)
      → bytes_eq command word ≡ true
      → Reads (program ∷ host ∷ port ∷ word ∷ arguments) p
      → Reads (program ∷ host ∷ port ∷ command ∷ arguments) p
  parsed_word word command arguments p e =
      subst (λ (c : Bytes). Reads (program ∷ host ∷ port ∷ c ∷ arguments) p)
        (sym (bytes_eq→eq command word e))

  pub parse_command-Reads :
      (command : Bytes) (arguments : List Bytes)
      → Reads (program ∷ host ∷ port ∷ command ∷ arguments) (parse_command command arguments)
  unfolding parse_command
  parse_command-Reads command arguments = elim (Bool-cases (bytes_eq command word_list)) [
    | inl e ↦ rw e (parsed_word word_list command arguments _ e (parse_list-Reads arguments))
    | inr e ↦ rw e (elim (Bool-cases (bytes_eq command word_get)) [
      | inl e' ↦ rw e' (parsed_word word_get command arguments _ e' (parse_get-Reads arguments))
      | inr e' ↦ rw e' (elim (Bool-cases (bytes_eq command word_put)) [
        | inl e'' ↦
            rw e'' (parsed_word word_put command arguments _ e'' (parse_put-Reads arguments))
        | inr e'' ↦ rw e'' tt
      ])
    ])
  ]
