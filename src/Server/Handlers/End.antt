-- ===== src/Server/Handlers/End.antt =====
-- What `PrintServer` prints behind each handler.
use proteus_java.Emit.{Program, print_text, outdent, ◌>>◌}

unfoldable pub handler_end : Program
handler_end = do outdent; print_text "}\n\n"
