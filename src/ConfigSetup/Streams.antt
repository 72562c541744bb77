-- ===== src/ConfigSetup/Streams.antt =====
-- What the watchers of the standard streams write to the log file.
use svc_hostify.Base.{Text, Bool, ◌≡◌, refl, ap, ◌∙◌, true, some, List, [], ◌∷◌, ◌++◌}
use svc_hostify.Effects.{Sink, StdioToSinkDispatcher, info}
use svc_hostify.ConfigSetup.{LoggerContext, rotating_file_sink, set_sink, process_message}
use mathlib.Core.List.{reverse, reverse_aux}

-- What happens to a dispatcher: a line that a watcher reads, or a new sink.
pub data Event : Type 0 where
  message : Text → Event
  new_sink : Sink → Event

abbrev pub react : Event → StdioToSinkDispatcher → StdioToSinkDispatcher
react (message line) d = process_message line d
react (new_sink sink) d = set_sink sink d

abbrev pub dispatch_all : List Event → StdioToSinkDispatcher → StdioToSinkDispatcher
dispatch_all [] d = d
dispatch_all (e ∷ l) d = dispatch_all l (react e d)

abbrev pub messages : List Text → List Event
messages [] = []
messages (line ∷ l) = message line ∷ messages l

dispatch_all-append :
    (l k : List Event) (d : StdioToSinkDispatcher)
    → dispatch_all (l ++ k) d ≡ dispatch_all k (dispatch_all l d)
dispatch_all-append [] k d = refl
dispatch_all-append (e ∷ l) k d = dispatch_all-append l k (react e d)

dispatch_all-messages :
    (l : List Text) (sink : Sink) (watching : Bool)
    → dispatch_all (messages l) (record { sink = some sink; watching = watching }) ≡ record {
      sink = some (record sink { lines = reverse_aux l sink.lines });
      watching = watching;
    }
unfolding process_message
dispatch_all-messages [] sink watching = refl
dispatch_all-messages (line ∷ l) sink watching =
    dispatch_all-messages l (record sink { lines = line ∷ sink.lines }) watching

-- The file that was set last gets the lines that were read since, each once and in their order (the
-- newest comes first in `lines`), without a format of the logger's own, whatever was read or set
-- before.
pub dispatch_all-messages_append :
    (before : List Event) (c : LoggerContext) (l : List Text) (d : StdioToSinkDispatcher)
    → (dispatch_all (before ++ new_sink (rotating_file_sink c) ∷ messages l) d).sink
      ≡ some (record {
        base_path = c.base_path;
        max_size = c.max_size;
        max_files = c.max_files;
        plain_format = true;
        level = info;
        lines = reverse l;
      })
unfolding set_sink
dispatch_all-messages_append before c l d =
    ap (λ (e : StdioToSinkDispatcher). e.sink)
      (dispatch_all-append before (new_sink (rotating_file_sink c) ∷ messages l) d
        ∙ dispatch_all-messages l _ (dispatch_all before d).watching)
