-- ===== src/Plumber/Boot.antt =====
-- main of plumber/pb.y, up to the parser of the configuration.
use Prim.Native.String.{String}
use pint.Common.{List, Option, none, some, ltb, if◌then◌else◌, length, get_or, ◌>>=◌}
use pint.CommTypes.Types.{TypedPipe}
use pint.CommTypes.Serial.{Scanf, deserialize_pipe}

-- `data_in` and `cmd_out`. `none`: the usage message and the end of the process, or a read through
-- an unset pointer.
unfoldable pub read_pipes : Scanf → List String → Option (TypedPipe × TypedPipe)
unfolding deserialize_pipe
read_pipes s argv =
    if ltb (length argv) 5
    then none
    else (deserialize_pipe s (get_or argv 3 "") >>= λ data_in.
        deserialize_pipe s (get_or argv 4 "") >>= λ cmd_out. some (data_in, cmd_out))
