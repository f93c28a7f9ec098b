-- ===== src/Lib.antt =====
-- BBG-VoIP, telephony on the BeagleBone Green: a model of the program that src/main_pretty.c builds,
-- and what is proved of it.
--
-- The program. `main` starts the audio module, the lights, the address book, a dial service and a
-- voice server. The dial service is a thread that reads a name from the terminal, or an address from
-- the keypad, and calls `onDial`, which connects to that peer. The voice server is a thread that
-- accepts connections and calls `handleIncomingCall` for each known caller, which suspends the dial
-- service, asks the user, and resumes it. Either way a call begins with a handshake and a greeting;
-- then a thread starts the audio module, which moves frame buffers between the sound device and the
-- connection until one side hangs up.
--
-- The files.
--   Prelude     texts and memory as lists of bytes, Booleans as tests, integers, faults
--   Sys         the calls of the system, their log, and how a piece of the program can end
--   World       the static variables of all files in one record; actions that read and write them
--   Ring        src/ringbuffer.c: `Ring` is the struct, one function per RingBuffer_ function; Inv is the
--               well-formedness, Queue the bounded queue that is promised, Window, Refine, Batch and Drain the
--               proofs; Printed has printBuf of src/main_ringbuffer.c
--   SendBuffer  src/sendbuffer.c
--   AddressBook src/addressbook.c
--   Connection  src/connection.c
--   Audio       src/audio.c: Control has Audio_init, Audio_start, Audio_stop, Audio_teardown; Frames the
--               frame buffers and, as the interface `Queues`, what the queues and the ring of other projects
--               promise; Threads has fillPlaybackQueue, flushRecordQueue and streamCallback as a step
--               relation; Pools has initFreeBuffers, clearAllQueues and the end of Audio_teardown
--   Call        src/call.c and src/trek.c: Datagram has sendDatagram and receiveDatagram, Session the
--               handshake and the call's thread, Recording the audio threads with sendDatagram, Trek the
--               greeting
--   Driver      src/driver/call.c, a program of its own that calls itself
--   Udp         src/socket.c; Echo is src/main.c, a program of its own
--   Led         src/led.c
--   Terminal    fgetc, fgets and the loops that skip a line, as the program uses them
--   Dial        src/dialservice.c
--   Voice       src/voiceserver.c
--   App         src/main_pretty.c: onDial and handleIncomingCall; Main has `main`; Threads has the threads
--               that run these, and those of the calls, as a step relation
--   Keypad      src/keypad.c
--   Volume      volume_mixer/, a program of its own: Gpio is its file.c and gpio.c, I2c its i2c.c, Mixer
--               and Main its volume_mixer.c
--   Bench       src/main_nonblocking_audio.c, an earlier form of src/audio.c as a program of its own: Noise
--               is its uniformRand, Bars its bars with consumer of src/main_audio_test.c, Loop its threads
--               and callback as a step relation, Main its main
--   Testing     concrete systems and a concrete world for the tests
--
-- How code becomes a model. A function of the program is an action on `World`, which gives a result
-- and the world after it. A call that leaves the program (sockets, threads, files, PortAudio, the audio
-- module's own pools and queues) is put at the front of the log, and `Env` decides its answer from the log
-- and the call, so every theorem holds for each system that answers as its hypotheses say. `exit`
-- ends the action, an access outside an object is a fault, and a function that the code calls through
-- a pointer is an argument. `size_t` has 32 bits, `char` is unsigned and `int` little-endian, as on
-- the BeagleBone. A loop that waits for the outside takes a number of rounds and is `unfinished` beyond it;
-- the theorems hold for each number of rounds, or say how the program stands once it returns. The
-- loops over a frame end in one round more than there are calls, which the theorems on sendDatagram and
-- receiveDatagram say. The loops of src/audio.c that empty a queue or the pool end in one round more than
-- there are frames in it.
--
-- The audio threads. The two threads and the sound device's callback share the three containers and the
-- memory of the frame buffers, so there an interleaving matters: each is cut where it uses a container,
-- copies a frame, or calls out, a state says where each of the three stands, and a step is one move of one
-- of them, or Audio_stop telling them to stop. The lists of frames queued, played, recorded and sent are kept
-- beside the state, to say what is played and sent. The containers are a parameter, with laws that say that
-- each is a queue whose operations are atomic, and that a put may be refused; Frames.Listed is an instance.
--
-- The phone's threads. The dial service, the voice server and the calls have threads of their own, which
-- meet at the terminal, at the audio module, and where DialService_suspend cancels one. App.Threads
-- cuts getInput with onDial, and acceptConnections with handleIncomingCall, where they wait for the
-- terminal, for a caller, or for the end of a call, and takes beginCall whole; between two cuts a thread
-- runs by itself. A cancellation falls on a cut. What an action of the voice server makes of the dial
-- service's thread is read off the pthread_cancel and pthread_create that it puts into the log.
--
-- Not modelled: printed messages, the constants of socket and device parameters, what DEBUG_AUDIO
-- adds, Audio_playBuffers, which nothing calls, the interleaving of the threads of the
-- other programs (there what others do meanwhile is a parameter), the lock-free
-- queues of src/lfqueue.c and src/lfringbuffer.c with their pool of nodes (other projects' libraries), the
-- loop of src/main_ringbuffer.c that reads commands, and the other test programs.
mod Prelude
mod Testing
pub mod Ring
pub mod Sys
pub mod World
pub mod AddressBook
pub mod Connection
pub mod Audio
pub mod Call
pub mod Led
pub mod Terminal
pub mod Dial
pub mod Driver
pub mod Voice
pub mod App
pub mod Bench
pub mod Volume
pub mod Keypad
pub mod Udp
pub mod SendBuffer
