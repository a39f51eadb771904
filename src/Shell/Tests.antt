-- ===== src/Shell/Tests.antt =====
-- bash-command-parser.ts: two command lines.
use reins.Base.{◌≡◌, refl, [], ◌∷◌, text}
use reins.Shell.Split.{single, is_pair, scan, flush, split_on_operators}
use reins.Shell.Command.{
  with_white, before_space, assignment, env_match, prefix_match, skip, extract_command,
}
use reins.Shell.Segments.{
  command, args, operator, fragment, segments_of, segments, parse_command_segments,
}
use reins.Shell.Faithful.{segments_text, parse_command_segments-text}
use reins.Shell.Operators.{IsGood, parse_command_segments-IsGood}
use reins.Base.{All}

shell : Unit {0}
unfolding single is_pair scan flush split_on_operators with_white before_space assignment env_match
    prefix_match skip extract_command fragment segments_of segments parse_command_segments
shell = tt

piped :
    parse_command_segments (text "A=1 sudo ls -l && echo 'a|b'")
    ≡ record { kind = args; text = text "A=1 sudo " }
      ∷ record { kind = command; text = text "ls" }
      ∷ record { kind = args; text = text " -l " }
      ∷ record { kind = operator; text = text "&&" }
      ∷ record { kind = args; text = text " " }
      ∷ record { kind = command; text = text "echo" }
      ∷ record { kind = args; text = text " 'a|b'" }
      ∷ []
unfolding shell
piped = refl

parse_command_segments-text_example :
    segments_text (parse_command_segments (text "ls | wc")) ≡ text "ls | wc"
parse_command_segments-text_example = parse_command_segments-text (text "ls | wc") (cc)

parse_command_segments-IsGood_example : All IsGood (parse_command_segments (text "ls;pwd"))
parse_command_segments-IsGood_example = parse_command_segments-IsGood (text "ls;pwd")
