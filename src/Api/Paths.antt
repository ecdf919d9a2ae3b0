-- ===== src/Api/Paths.antt =====
-- api/handlers.go: which file a DELETE for a file names to the agent. What `net/url` does between the
-- two is written out, but for `url.QueryUnescape`, which is a parameter.
use Prim.Native.Char.{Char}
use Prim.Native.String.{String}
use text.Mathlib.TextLemmas.{append-nil, append_assoc}
use gitvm.Base.{
  ◌==◌, ==_refl, string_comparable, false, ◌≡◌, ◌⊎◌, inl, inr, refl, ◌∙◌, Option, none, some, List,
  [], ◌∷◌, concat, if◌then◌else◌,
}
use gitvm.Base.Scan.{before_first, after_first, split, Lacks}
use gitvm.Base.Scan.Cuts.{
  Lacks-concat, before_first_whole, before_first-equals, after_first-equals, before_first-Lacks,
  after_first-Lacks, before_first_at, after_first-concat, split-Lacks, split_whole,
}
use gitvm.Http.{AgentRequest, AgentAnswer}
use gitvm.Orchestrator.Store.{VmInstance, get}
use gitvm.Orchestrator.Calls.{Orchestrator}
use gitvm.Api.Handlers.{do_request, with_vm, delete_file, answer, has_control}

files_Lacks : Lacks b'#' "/files?path="
files_Lacks = (
  refl,
  (refl, (refl, (refl, (refl, (refl, (refl, (refl, (refl, (refl, (refl, (refl, tt))))))))))),
)

root_Lacks : Lacks b'?' "/files"
root_Lacks = (refl, (refl, (refl, (refl, (refl, (refl, tt))))))

name_Lacks : Lacks b'&' "path="
name_Lacks = (refl, (refl, (refl, (refl, (refl, tt)))))

and_stays :
    (rest : String)
    → before_first b'#' (String.◌∷◌ "&" rest) ≡ String.◌∷◌ "&" (before_first b'#' rest)
unfolding before_first
and_stays rest = refl

semi_Lacks : Lacks b';' "path="
semi_Lacks = (refl, (refl, (refl, (refl, (refl, tt)))))

path_Lacks : Lacks b'=' "path"
path_Lacks = (refl, (refl, (refl, (refl, tt))))

key_of_first : (file : String) → before_first b'=' (concat "path=" file) ≡ "path"
key_of_first file = rw (append_assoc "path" "=" file) (before_first-equals "path" file path_Lacks)

value_of_first : (file : String) → after_first b'=' (concat "path=" file) ≡ some file
value_of_first file = rw (append_assoc "path" "=" file) (after_first-equals "path" file path_Lacks)

abbrev or_empty : Option String → String
or_empty none = ""
or_empty (some s) = s

module _ (unescape : String → Option String) where
  -- The pair of a query, where its key is `path` and both of its sides can be unescaped; else what
  -- the later pairs give. A pair with a `;` is left out.
  value_of_pair : String → Option String → Option String
  value_of_pair pair later =
      if before_first b';' pair == pair
      then elim (unescape (before_first b'=' pair)) [
        | none ↦ later
        | some key ↦
            if key == "path"
            then elim (unescape (or_empty (after_first b'=' pair))) [
              | none ↦ later
              | some v ↦ some v
            ]
            else later
      ]
      else later

  -- `r.URL.Query().Get("path")` over the pairs of a query, where `none` is ""
  value_of_path : List String → Option String
  value_of_path [] = none
  value_of_path (pair ∷ pairs) = value_of_pair pair (value_of_path pairs)

  -- The value of `path` that a server reads from a request for the URL: the client does not send
  -- what stands behind a `#`.
  pub path_sent : String → Option String
  path_sent url = elim (after_first b'?' (before_first b'#' url)) [
    | none ↦ none
    | some query ↦ value_of_path (split b'&' query)
  ]

  value_of_path-first :
      (file : String) (pairs : List String)
      → Lacks b';' file
      → unescape "path" ≡ some "path"
      → unescape file ≡ some file
      → value_of_path (concat "path=" file ∷ pairs) ≡ some file
  unfolding value_of_path value_of_pair
  value_of_path-first file pairs fs key whole =
      rw
        (
          before_first_whole b';' (concat "path=" file)
              (Lacks-concat b';' "path=" file semi_Lacks fs),
          ==_refl (concat "path=" file),
          key_of_first file,
          key,
          value_of_first file,
          whole,
          value_of_pair,
        )
        refl

  query_of_files :
      (agent_url rest : String)
      → Lacks b'#' agent_url
      → Lacks b'?' agent_url
      → after_first b'?' (before_first b'#' (concat agent_url (concat "/files?path=" rest)))
        ≡ some (concat "path=" (before_first b'#' rest))
  query_of_files agent_url rest h q =
      rw
        (
          before_first-Lacks b'#' agent_url (concat "/files?path=" rest) h,
          before_first-Lacks b'#' "/files?path=" rest files_Lacks,
          after_first-Lacks b'?' agent_url (concat "/files?path=" (before_first b'#' rest)) q,
        )
        (after_first-concat "?" "/files" "path=" (before_first b'#' rest) root_Lacks)

  path_sent-files :
      (agent_url rest : String)
      → Lacks b'#' agent_url
      → Lacks b'?' agent_url
      → path_sent (concat agent_url (concat "/files?path=" rest))
        ≡ value_of_path (split b'&' (concat "path=" (before_first b'#' rest)))
  unfolding path_sent
  path_sent-files agent_url rest h q = rw (query_of_files agent_url rest h q, path_sent)

  cut_at_hash :
      (agent_url file rest : String)
      → Lacks b'#' agent_url
      → Lacks b'?' agent_url
      → Lacks b'#' file
      → Lacks b'&' file
      → Lacks b';' file
      → unescape "path" ≡ some "path"
      → unescape file ≡ some file
      → path_sent (concat agent_url (concat "/files?path=" (concat file (String.◌∷◌ "#" rest))))
        ≡ some file
  cut_at_hash agent_url file rest h q fh fa fs key whole =
      path_sent-files agent_url (concat file (String.◌∷◌ "#" rest)) h q
      ∙ rw
          (
            before_first-Lacks b'#' file (String.◌∷◌ "#" rest) fh,
            before_first_at "#" rest,
            append-nil file,
            split_whole b'&' (concat "path=" file) (Lacks-concat b'&' "path=" file name_Lacks fa),
          )
          (value_of_path-first file [] fs key whole)

  cut_at_and :
      (agent_url file rest : String)
      → Lacks b'#' agent_url
      → Lacks b'?' agent_url
      → Lacks b'#' file
      → Lacks b'&' file
      → Lacks b';' file
      → unescape "path" ≡ some "path"
      → unescape file ≡ some file
      → path_sent (concat agent_url (concat "/files?path=" (concat file (String.◌∷◌ "&" rest))))
        ≡ some file
  cut_at_and agent_url file rest h q fh fa fs key whole =
      path_sent-files agent_url (concat file (String.◌∷◌ "&" rest)) h q
      ∙ rw
          (
            before_first-Lacks b'#' file (String.◌∷◌ "&" rest) fh,
            and_stays rest,
            ← (append_assoc "path=" file (String.◌∷◌ "&" (before_first b'#' rest))),
            split-Lacks "&" (concat "path=" file) (before_first b'#' rest)
                (Lacks-concat b'&' "path=" file name_Lacks fa),
          )
          (value_of_path-first file (split b'&' (before_first b'#' rest)) fs key whole)

  abbrev pub delete_request : VmInstance → String → AgentRequest
  delete_request vm path = record {
    method = "DELETE";
    url = concat vm.agent_url (concat "/files?path=" path);
    body = "";
  }

  delete_file-asks :
      {E W : Type 0} (agent : AgentRequest → W → Option AgentAnswer × W) (id : String)
      (vm : VmInstance) (path : String) (o : Orchestrator) (w : W)
      → get id o.store ≡ some vm
      → has_control (delete_request vm path).url ≡ false
      → delete_file {E = E} agent id path o w
        ≡ (answer (agent (delete_request vm path) w).0, (agent (delete_request vm path) w).1)
  unfolding delete_file with_vm do_request
  delete_file-asks agent id vm path o w found clean =
      rw (found, delete_file, with_vm, clean, do_request) refl

  -- A DELETE for a path in a sandbox that is a file, a # or a & and a rest sends its URL to the
  -- agent by DELETE and gives back the answer, while the path that the agent reads in that URL is
  -- the file alone. The file has no #, & or ; in it, the rest no %, the URL no space or control
  -- character, the URL of the agent no # or ?, and the unescaping of a query leaves the file and
  -- the word path as they are.
  pub delete_file_cut :
      {E W : Type 0} (agent : AgentRequest → W → Option AgentAnswer × W) (id : String)
      (vm : VmInstance) (file rest : String) (sep : Char) (o : Orchestrator) (w : W)
      → get id o.store ≡ some vm
      → Lacks b'#' vm.agent_url
      → Lacks b'?' vm.agent_url
      → Lacks b'#' file
      → Lacks b'&' file
      → Lacks b';' file
      → Lacks b'%' rest
      → Lacks b' ' (delete_request vm (concat file (String.◌∷◌ sep rest))).url
      → has_control (delete_request vm (concat file (String.◌∷◌ sep rest))).url ≡ false
      → unescape "path" ≡ some "path"
      → unescape file ≡ some file
      → (sep ≡ "#") ⊎ (sep ≡ "&")
      → let req = delete_request vm (concat file (String.◌∷◌ sep rest)) in
        (delete_file {E = E} agent id (concat file (String.◌∷◌ sep rest)) o w
          ≡ (answer (agent req w).0, (agent req w).1))
        × (path_sent req.url ≡ some file)
  delete_file_cut agent id vm file rest sep o w found h q fh fa fs escapes plain clean key whole
        cut =
      (
        delete_file-asks agent id vm (concat file (String.◌∷◌ sep rest)) o w found clean,
        elim cut [
          | inl hash ↦ rw hash (cut_at_hash vm.agent_url file rest h q fh fa fs key whole)
          | inr and ↦ rw and (cut_at_and vm.agent_url file rest h q fh fa fs key whole)
        ],
      )
