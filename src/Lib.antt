-- ===== src/Lib.antt =====
-- A model of the Raspberry Pi WebRTC streamer (rpi-webrtc-streamer), src/*.cc and src/*.h, and the
-- theorems about it.
--
-- Parts and files:
--   FrameQueue     src/frame_queue.cc: the queue of encoded frames between the MMAL callback and the
--                  drain threads. Buffers are objects on a heap, named by numbers; `init`, `clear`,
--                  `read_front`, `write_back` are the methods of those names. `Stream` is the abstract
--                  queue that they implement, `Owns` and `Filling.IsValid` the representation invariant.
--   FileWriter     src/file_writer_handle.cc: `Buffer` is FileWriterBuffer, `Handle` FileWriterHandle.
--   Motion         src/raspi_motion.cc, src/raspi_motionfile.cc and src/raspi_motionvector.cc:
--                  `Detection` is the motion state and its observers, `DirLimit` is
--                  LimitTotalDirSizeTask, `Vector` the histories and reports of RaspiMotionVector.
--   Utils          src/utils.cc: path and text functions.
--   Blob           src/raspi_motionblob.cc: `Ids` has the state and the ids, `Search` the search of a
--                  connected area of motion, `Detect` the update with a new picture and the queries. A
--                  buffer is a function from cells to bytes.
--   Log            src/log_rotating_stream.cc: `Rotating` is LogRotatingStream, over a disk that maps
--                  the index of a file to its bytes.
--   Client         src/app_clientinfo.cc: `ClientInfo` is AppClientInfo, the registration of the client.
--   Quality        src/raspi_quality_config.cc: the choice of the resolution for a bit rate.
--   Signaling      src/streamer_signaling.cc: the proxy and its channels; `Sessions` is the step relation
--                  of all channels together; `Direct` and `Lines` are src/direct_socket.cc.
--   WebSocket      src/websocket_server.cc and src/websocket_server_callback.cc: `Handler` is
--                  WSInternalHandlerConfig, `Server` the registry and the callback, `Server.Service`
--                  adds the requests for callbacks that libwebsockets keeps.
--   SessionConfig  src/session_config.cc: the RTC configuration of each web socket.
--   AppWsClient    src/app_ws_client.cc: the channel of the web sockets. `Commands` and `Requests` are the
--                  branches of OnMessage, `Messages` the handlers. JsonCpp, the camera, the encoder and
--                  the media configuration are the fields of the record `Platform`, a parameter.
--   ConfigMedia    src/config_media.cc and the rows of src/def/config_media.def: `Vars` and `Rows` are the list on
--                  which the macros are expanded, `Integers`, `Video` and `Validate` the validators, with
--                  VideoRoi of src/wstreamer_types.cc, `Load` and `Json` read and write all rows.
--   Motion.File    the class RaspiMotionFile of src/raspi_motionfile.cc, two file writers.
--   Motion.Drain   DrainProcess of src/raspi_motion.cc, which joins the frames of the encoder, the motion
--                  analysis, the motion state and the writers.
--   ConfigMotion   src/config_motion.cc and the rows of src/def/config_motion.def: the validators and Load.
--   Base           numbers, lists, memory and machine words that the parts share.
--
-- The encoder (MMAL) writes frames into the frame queue; the drain thread of the motion detection
-- reads them, hands motion vectors to the analysis, whose observers change the motion state, and puts
-- the bytes into file writer buffers, which writer threads bring to disk; when a motion ends, the
-- directory is trimmed.
--
-- What is outside the program enters as an argument: file system answers, the clock, the moving
-- average of WebRTC, the memory that `new` returns. A method under its object's mutex is one step.
-- `none` as a result stands for undefined behaviour, the end of the process or, in functions with a
-- fuel argument, also for fuel that ran out; the loops of FileWriter take one unit of fuel for each
-- chunk, so that more fuel than there are bytes is enough, and the search for a blob one for each
-- point that it visits, so that the number of points of the grid is. Sizes that wrap are written
-- with `%`. Strings are lists of bytes. The RTC_DCHECK lines that WriteBack of the frame queue
-- comes to are in FrameQueue/Assertions, for builds with and without them; the others are not part
-- of the model, and neither is logging. An RTC_CHECK of the streamer that an empty line of the
-- direct socket fails is a `none` of `on_read`. The size of a directory is computed in a size_t of
-- any width; elsewhere a size_t has 64 bits.
--
-- Not modelled: the MMAL camera wrapper and its C sources, the WebRTC peer connection, the
-- configuration of the streamer, and the HTTP notifier.
mod Base
pub mod Client
pub mod FileWriter
pub mod Blob
pub mod FrameQueue
pub mod Log
pub mod Motion
pub mod Quality
pub mod ConfigMedia
pub mod ConfigMotion
pub mod SessionConfig
pub mod AppWsClient
pub mod Signaling
pub mod Utils
pub mod WebSocket
