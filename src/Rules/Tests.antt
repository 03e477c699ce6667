-- ===== src/Rules/Tests.antt =====
-- Tests of the rules on concrete lists, and the theorems about them at concrete inputs.
use porthawk.Prelude.{◌≡◌, refl, ap, ◌⊎◌, ◌↔◌, true, false, some, [], ◌∷◌, keep, any}
use porthawk.Go.Text.{Text, ascii, equal_fold, trim_space, to_lower, contains}
use porthawk.Go.Text.Number.{codes}
use porthawk.Go.Netip.{Addr, v4, prefix_contains, masked, prefix_from}
use porthawk.Go.Netip.Parse.{parse_addr, parse_prefix}
use porthawk.Conn.{Conn, zero_conn}
use porthawk.Http.{post_method}
use porthawk.Rules.{
  Rule, RulesFile, parse_target, name_pattern, compile, compile_aliases, compile_hidden,
  compile_excluded,
}
use porthawk.Rules.Match.{alias_net, alias_for, apply, apply_aliases, alias_end, matches_name}
use porthawk.Rules.Edit.{Io, Store, absent, whole, written, load, save, edited}
use porthawk.Go.Json.{text, flag}
use porthawk.Rules.File.{encode_file, decode_file-encode_file, read_rule}
use porthawk.Rules.Races.{Steps, at_rest, edits, reads, writes, next, stop}
use porthawk.Rules.Ordered.{Steps-InSync}
use porthawk.Rules.Api.{Body, handle_rules, clean_name}
use porthawk.Rules.Specific.{NoneHolds, MostSpecific, alias_net-MostSpecific}
use porthawk.Rules.Hiding.{IsHidden, hide-apply}
use porthawk.Rules.Editing.{IsConsistent}
use porthawk.Rules.Persist.{InSync}
use porthawk.Rules.Requests.{handle_rules-IsConsistent, handle_rules-InSync}

abbrev rule : Text → Text → Rule
rule m n = record { match = m; name = n; off = false }

abbrev sample : RulesFile
sample = record {
  aliases =
      rule (codes "160.79.104.0/21") (codes "Anthropic")
      ∷ rule (codes "160.79.104.10") (codes "api")
      ∷ rule (codes "printer") (codes "the printer")
      ∷ [];
  hidden =
      rule (codes "10.0.0.0/8") (codes "hidden") ∷ rule (codes "DROPBOX") (codes "hidden") ∷ [];
  excluded = rule (codes "Cloudflare") (codes "excluded") ∷ [];
}

abbrev no_names : RulesFile
no_names = record sample { aliases = [] }

abbrev api_ip : Addr
api_ip = v4 2689558538

abbrev row : Conn
row = record zero_conn { raddr = codes "160.79.104.10"; owner = codes "Cloudflare, Inc." }

abbrev good_io : Io
good_io = record { write = written; rename_ok = true }

abbrev store : Store
store = record {
  rules = compile ascii sample;
  disk = record { rules_json = whole (encode_file sample); tmp = absent };
}

abbrev post : Body
post = record { op = codes "alias"; match = codes " 10.1.2.3 "; name = codes "nas" }

most_specific_wins : alias_for (compile ascii sample) (codes "160.79.104.10") ≡ codes "api"
unfolding alias_for alias_net compile compile_aliases parse_target parse_prefix parse_addr
    trim_space masked prefix_from prefix_contains name_pattern to_lower
most_specific_wins = refl

range_alias : alias_for (compile ascii sample) (codes "160.79.111.255") ≡ codes "Anthropic"
unfolding alias_for alias_net compile compile_aliases parse_target parse_prefix parse_addr
    trim_space masked prefix_from prefix_contains name_pattern to_lower
range_alias = refl

excluded_row : (apply ascii (compile ascii sample) row).hide ≡ true
unfolding apply alias_end alias_net compile compile_aliases compile_hidden compile_excluded
    parse_target parse_prefix parse_addr trim_space masked prefix_from prefix_contains name_pattern
    to_lower matches_name any contains
excluded_row = refl

cleaned : clean_name (codes "  a\tb\n ") ≡ codes "ab"
unfolding clean_name keep trim_space
cleaned = refl

alias_net-MostSpecific_example :
    (NoneHolds api_ip (compile ascii sample).alias_nets
      × (alias_net (compile ascii sample) api_ip ≡ []))
    ⊎ MostSpecific
        (compile ascii sample).alias_nets
        api_ip
        (alias_net (compile ascii sample) api_ip)
alias_net-MostSpecific_example = alias_net-MostSpecific (compile ascii sample) api_ip

hide-apply_example :
    ((apply ascii (compile ascii sample) row).hide ≡ true)
    ↔ IsHidden ascii sample (apply_aliases ascii (compile ascii sample) row)
hide-apply_example = hide-apply ascii sample row

store-IsConsistent : IsConsistent ascii store.rules
unfolding compile equal_fold
store-IsConsistent = record {
  aliases_once = ((refl, (refl, tt)), ((refl, tt), (tt, tt)));
  hidden_once = ((refl, tt), (tt, tt));
  excluded_once = (tt, tt);
  compiled = refl;
}

handle_rules-IsConsistent_example :
    IsConsistent ascii (handle_rules ascii good_io post_method (some post) store).1.rules
handle_rules-IsConsistent_example =
    handle_rules-IsConsistent ascii good_io post_method (some post) store store-IsConsistent

-- The file is missing before the first edit.
abbrev unsaved : Store
unsaved = record store { disk = record { rules_json = absent; tmp = absent } }

handle_rules-InSync_example :
    let s = (handle_rules ascii good_io post_method (some post) unsaved).1 in
    (s ≡ unsaved) ⊎ InSync ascii s
handle_rules-InSync_example =
    handle_rules-InSync ascii good_io post_method (some post) unsaved refl refl

-- The second edit comes between the reading and the writing of the first one's save.
abbrev first : Store
first = edited ascii store sample

abbrev second : Store
second = edited ascii first no_names

abbrev both_saved : Store
both_saved = record second {
  disk = save second.rules good_io (save first.rules good_io second.disk);
}

abbrev overlapping : Steps ascii good_io (at_rest store) (at_rest both_saved)
overlapping = next (edits sample (at_rest store)) (
    next (reads first 0 []) (
      next (edits no_names (record { store = first; starting = 0; read = first.rules ∷ [] })) (
        next (reads second 0 (first.rules ∷ [])) (
          next (writes second 0 [] (second.rules ∷ []) first.rules) (
            next
              (writes (record second { disk = save first.rules good_io second.disk }) 0 [] []
                second.rules)
              (stop (at_rest both_saved)))))))

store-InSync : InSync ascii store
unfolding load
store-InSync = ap (compile ascii) (decode_file-encode_file ascii sample _)

Steps-InSync_example : InSync ascii both_saved
Steps-InSync_example =
    Steps-InSync ascii good_io store both_saved overlapping refl refl
      (tt, (tt, (tt, (tt, (refl, (refl, tt)))))) store-InSync

-- A parked rule without a name, as it is written and as a hand-edited file may have it.
parked :
    read_rule ascii ((codes "Match", text (codes "a")) ∷ (codes "OFF", flag true) ∷ []) (rule [] [])
    ≡ record { match = codes "a"; name = []; off = true }
unfolding read_rule equal_fold
parked = refl
