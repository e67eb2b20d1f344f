-- ===== src/Hosts/Tests.antt =====
-- A hosts file that is read.
use xmltp.Prelude.{◌≡◌, refl, none, arith, some, [], ◌∷◌, ◌++◌, List, replicate}
use xmltp.Bytes.{Bytes, codes, c_string, strncmp_eq, strcmp_eq}
use xmltp.Hosts.{split_loop, split_line, hosts_loop, xmltp_hosts}
use xmltp.Hosts.Fields.{words, summary, split_line-words}
use xmltp.Hosts.Lookup.{xmltp_hosts-lookup}

abbrev hosts_file : List Bytes
hosts_file =
    codes "# logical host port\n"
    ∷ codes "\n"
    ∷ codes "XMLOCI oci.example\n"
    ∷ codes "  XMLSYB\tsyb.example 7001 # main\n"
    ∷ []

split_line-words_example :
    summary (split_line (codes "  XMLSYB\tsyb.example 7001 # main\n"))
    ≡ some (some (codes "XMLSYB" ++ 0 ∷ [], codes "syb.example" ++ 0 ∷ [], codes "7001" ++ 0 ∷ []))
unfolding words
split_line-words_example = split_line-words (codes "  XMLSYB\tsyb.example 7001 # main\n")

-- The incomplete line is passed over.
incomplete_line : xmltp_hosts (some hosts_file) (codes "XMLOCI") ≡ some (2, 0 ∷ [], 0 ∷ [])
unfolding xmltp_hosts hosts_loop split_line split_loop strcmp_eq strncmp_eq
incomplete_line = refl

-- A first word of 257 bytes is written behind its array, before the line that has the name.
long_name :
    xmltp_hosts (some ((replicate 257 b'a' ++ codes " h p\n") ∷ hosts_file)) (codes "XMLSYB") ≡ none
unfolding xmltp_hosts hosts_loop split_line split_loop strcmp_eq strncmp_eq
long_name = refl

xmltp_hosts-lookup_example :
    (xmltp_hosts none (codes "XMLSYB") ≡ some (1, 0 ∷ [], 0 ∷ []))
    × (xmltp_hosts (some hosts_file) (codes "XMLSYB")
        ≡ some (0, codes "syb.example" ++ replicate 245 0, codes "7001" ++ replicate 6 0))
unfolding words strcmp_eq strncmp_eq c_string
xmltp_hosts-lookup_example = xmltp_hosts-lookup hosts_file (codes "XMLSYB") (omega arith)
